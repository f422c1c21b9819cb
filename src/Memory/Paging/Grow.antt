-- ===== src/Memory/Paging/Grow.antt =====
-- A new table under an invalid entry, as `walk` of kernel/memory/VmManager.cpp adds it: the address
-- spaces stay as they were.
use startos.Prelude.{
  ℕ, zero, suc, ◌+◌, ◌*◌, ◌%◌, ◌^◌, ◌≤◌, ◌<◌, ◌==◌, if◌then◌else◌, true, false, ◌≡◌, ◌≢◌, ◌⊎◌, inl,
  inr, refl, sym, subst, ap, ◌∙◌, List, ◌∷◌, count, All-count, arith, Bool-cases, bit_or,
  ne→==_false, ltb,
}
use startos.Prelude.Bits.{bit_or-one}
use startos.Memory.Pages.{Memory, alloc}
use startos.Memory.Pages.Invariant.{Chain-frame, IsPage, Holds, Allocated, alloc-cons}
use startos.Memory.Paging.{pte_v, pte_u, has, pa2pte, pte2pa, px, slot, link}
use startos.Memory.Paging.Tree.{
  look, AtLevel, Places, Owns, AtLevel-inner, AtLevel-some, px-lt, next-AtLevel, look-valid,
  look-invalid,
}

-- An entry made of an address, permissions and the valid bit.
pub entry-fields :
    (pa : ℕ)
    → pa % 4096 ≡ 0
    → pa < 2 ^ 56
    → (has pte_v (bit_or (pa2pte pa) pte_v) ≡ true) × (pte2pa (bit_or (pa2pte pa) pte_v) ≡ pa)
entry-fields pa al small = rw (bit_or-one (pa2pte pa)) (ground arith)

-- Entries of pages in use stand at different addresses unless they are the same entry.
pub slot-inj :
    (t u i j : ℕ)
    → t % 4096 ≡ 0
    → u % 4096 ≡ 0
    → i < 512
    → j < 512
    → t + 8 * i ≡ u + 8 * j
    → (t ≡ u) × (i ≡ j)
slot-inj t u i j a b h k e = omega arith

-- A page's code, set.
abbrev pub set_place : Places → ℕ → ℕ → Places
set_place place x c = λ t. if t == x then c else place t

module _ (end : ℕ) (s : Memory) (x : ℕ) (xs : List ℕ) (place : Places) (t i : ℕ)
    (own : Owns end s (x ∷ xs) place) (some_code : 1 ≤ place t) (i_fits : i < 512) where
  abbrev pub grown : Memory
  grown = link (alloc s).1 (t + 8 * i) x

  abbrev pub grown_places : Places
  grown_places = set_place place x (place t * 512 + i)

  abbrev got : Allocated end s x xs (alloc s)
  got = alloc-cons end s x xs own.holds

  x_page : IsPage end x
  x_page = own.holds.pages.0

  t_page : IsPage end t
  t_page = own.pages t some_code

  -- The new page had no code.
  pub uncoded : place x ≡ 0
  uncoded = elim (Bool-cases (place x == 0)) [
    | inl e ↦ ground arith
    | inr e ↦ absurd (
        let coded : 1 ≤ place x = ground arith in
        let gone : count x (x ∷ xs) ≡ 0 = own.in_use x coded in ground (arith, gone))
  ]

  pub other : (u : ℕ) → 1 ≤ place u → u ≢ x
  other u c e = absurd (let zero_there : place u ≡ 0 = rw e uncoded in omega arith)

  pub grown-new : (a : ℕ) → x ≤ a → a < x + 4096 → grown.words a ≡ 0
  grown-new a lo hi =
      let ne : a ≢ t + 8 * i =
        λ e. other t some_code (omega (arith, x_page.aligned, t_page.aligned)) in
      rw (ne→==_false a (t + 8 * i) ne) (ground arith)

  pub grown-link : grown.words (t + 8 * i) ≡ bit_or (pa2pte x) pte_v
  grown-link = ground arith

  pub grown-same : (a : ℕ) → (a < x) ⊎ (x + 4096 ≤ a) → a ≢ t + 8 * i → grown.words a ≡ s.words a
  grown-same a out ne = rw (ne→==_false a (t + 8 * i) ne) (ground (arith, got.same a out))

  -- An address in a page in use, other than the entry's.
  pub grown-page :
      (u a : ℕ) → 1 ≤ place u → u ≤ a → a < u + 4096 → a ≢ t + 8 * i → grown.words a ≡ s.words a
  grown-page u a c lo hi ne =
      let p = own.pages u c in
      let far : u ≢ x = other u c in
      elim (Bool-cases (ltb u x)) [
        | inl e ↦ grown-same a (inl (ground (arith, p.aligned, x_page.aligned))) ne
        | inr e ↦ grown-same a (inr (ground (arith, p.aligned, x_page.aligned))) ne
      ]

  grown-Holds : Holds end grown xs
  grown-Holds = record {
    chain =
        Chain-frame (alloc s).1.words grown.words (alloc s).1.free_list xs got.rest.chain
          λ a c. spared a c;
    pages = got.rest.pages;
    once = got.rest.once;
    counted = got.rest.counted;
  }
    where
      spared : (a : ℕ) → 1 ≤ count a xs → grown.words a ≡ (alloc s).1.words a
      spared a c =
          let p : IsPage end a = All-count (IsPage end) a xs got.rest.pages c in
          let far : a ≢ x = λ e. absurd (
            let twice : 1 ≤ count x xs = subst (λ b. 1 ≤ count b xs) e c in
            ground (arith, own.holds.once x)) in
          let ne : a ≢ t + 8 * i = λ e. absurd (
            let here : a ≡ t = omega (arith, p.aligned, t_page.aligned) in
            let free_too : 1 ≤ count t xs = subst (λ b. 1 ≤ count b xs) here c in
            ground (arith, own.in_use t some_code)) in
          rw (ne→==_false a (t + 8 * i) ne) (ground (arith, p.aligned, x_page.aligned))

  grown_coded : (u : ℕ) → 1 ≤ place u → grown_places u ≡ place u
  grown_coded u c = rw (ne→==_false u x (other u c)) refl

  -- A page with a code is the new one or had its code before.
  grown-cases :
      (u : ℕ)
      → 1 ≤ grown_places u
      → (u ≡ x) ⊎ ((u ≢ x) × (1 ≤ place u) × (grown_places u ≡ place u))
  grown-cases u c = elim (Bool-cases (u == x)) [
    | inl e ↦ inl (ground arith)
    | inr e ↦
        (let ne : u ≢ x = ground arith in
          let same : grown_places u ≡ place u = rw (ne→==_false u x ne) refl in
          inr (ne, (rw same at c), same))
  ]

  pub grown-entry :
      (u j : ℕ)
      → 1 ≤ place u
      → j < 512
      → ((u ≡ t) × (j ≡ i)) ⊎ (grown.words (u + 8 * j) ≡ s.words (u + 8 * j))
  grown-entry u j c fits = elim (Bool-cases (u + 8 * j == t + 8 * i)) [
    | inl e ↦
        inl (slot-inj u t j i (own.pages u c).aligned t_page.aligned fits i_fits (ground arith))
    | inr e ↦ inr (grown-page u (u + 8 * j) c (omega arith) (omega arith) (ground arith))
  ]

  grown-zero : (j : ℕ) → j < 512 → grown.words (x + 8 * j) ≡ 0
  grown-zero j fits = grown-new (x + 8 * j) (omega arith) (omega arith)

  grown-links :
      place t < 2 ^ 18
      → (u j : ℕ) → 1 ≤ grown_places u
      → grown_places u < 2 ^ 18
      → j < 512
      → has pte_v (grown.words (u + 8 * j)) ≡ true
      → grown_places (pte2pa (grown.words (u + 8 * j))) ≡ grown_places u * 512 + j
  grown-links inner u j c small fits valid = elim (grown-cases u c) [
    | inl e ↦ absurd (
        let empty : grown.words (u + 8 * j) ≡ 0 = rw e (grown-zero j fits) in
        let invalid : has pte_v 0 ≡ true = rw empty at valid in ground arith)
    | inr (ne, before, same) ↦ elim (grown-entry u j before fits) [
      | inl (at_t, at_i) ↦
          (let fields = entry-fields x x_page.aligned (omega (arith, x_page.below)) in
            let points : pte2pa (grown.words (u + 8 * j)) ≡ x =
              rw (at_t, at_i, grown-link) fields.1 in
            let self : grown_places x ≡ place t * 512 + i = ground arith in
            rw (points, self, same, at_t, at_i) refl)
      | inr e ↦
          (let old = own.links u j before (rw same at small) fits (rw e at valid) in
            let coded = grown_coded (pte2pa (s.words (u + 8 * j))) (omega arith) in
            rw (e, coded, same) old)
    ]
  ]

  grown-leaves :
      place t < 2 ^ 18
      → (u j : ℕ) → 2 ^ 18 ≤ grown_places u
      → grown_places u < 2 ^ 27
      → j < 512
      → has pte_v (grown.words (u + 8 * j)) ≡ true
      → has pte_u (grown.words (u + 8 * j)) ≡ true
      → grown_places (pte2pa (grown.words (u + 8 * j))) ≡ grown_places u * 512 + j
  grown-leaves inner u j big small fits valid for_user = elim (grown-cases u (omega arith)) [
    | inl e ↦ absurd (
        let empty : grown.words (u + 8 * j) ≡ 0 = rw e (grown-zero j fits) in
        let invalid : has pte_v 0 ≡ true = rw empty at valid in ground arith)
    | inr (ne, before, same) ↦ elim (grown-entry u j before fits) [
      | inl (at_t, at_i) ↦ absurd (
          let low : place u < 2 ^ 18 = rw at_t inner in
          let high : 2 ^ 18 ≤ place u = rw same at big in omega arith)
      | inr e ↦
          (let high : 2 ^ 18 ≤ place u = rw same at big in
            let old =
              own.leaves u j high (rw same at small) fits (rw e at valid) (rw e at for_user) in
            let coded = grown_coded (pte2pa (s.words (u + 8 * j))) (omega arith) in
            rw (e, coded, same) old)
    ]
  ]

  -- The forest with the new table.
  pub grown-Owns : place t < 2 ^ 18 → Owns end grown xs grown_places
  grown-Owns inner = record {
    holds = grown-Holds;
    pages = λ u c. elim (grown-cases u c) [
      | inl e ↦ rw e x_page
      | inr (ne, before, same) ↦ own.pages u before
    ];
    in_use = λ u c. elim (grown-cases u c) [
      | inl e ↦ rw e (ground (arith, own.holds.once x))
      | inr (ne, before, same) ↦ ground (arith, own.in_use u before)
    ];
    links = grown-links inner;
    leaves = grown-leaves inner;
  }

  look-new : (l va : ℕ) → look l grown.words x va ≡ 0
  unfolding look
  look-new zero va = grown-zero (px 0 va) (px-lt 0 va)
  look-new (suc l) va = look-invalid l grown.words x va (
      let empty = grown-zero (px (suc l) va) (px-lt (suc l) va) in
      ap (λ (v : ℕ). has pte_v v) empty)

  -- No walk comes to another entry than before.
  pub look-grown :
      place t < 2 ^ 18
      → has pte_v (s.words (t + 8 * i)) ≡ false
      → (l u va : ℕ) → AtLevel l (place u)
      → look l grown.words u va ≡ look l s.words u va
  unfolding look
  look-grown inner missing zero u va at =
      elim (grown-entry u (px 0 va) (AtLevel-some 0 (place u) at) (px-lt 0 va)) [
        | inl (at_t, at_i) ↦
            absurd (let low : place u < 2 ^ 18 = rw at_t inner in omega (arith, at))
        | inr e ↦ e
      ]
  look-grown inner missing (suc l) u va at =
      let some = (AtLevel-inner l (place u) at).0 in
      elim (grown-entry u (px (suc l) va) some (px-lt (suc l) va)) [
        | inl (at_t, at_i) ↦
            (let fields = entry-fields x x_page.aligned (omega (arith, x_page.below)) in
              let new : grown.words (slot (suc l) u va) ≡ bit_or (pa2pte x) pte_v =
                rw (at_t, at_i) grown-link in
              let old : has pte_v (s.words (slot (suc l) u va)) ≡ false = rw (at_t, at_i) missing in
              look-valid l grown.words u va (bit_or (pa2pte x) pte_v) new fields.0
              ∙ ap (λ (p : ℕ). look l grown.words p va) fields.1
              ∙ look-new l va
              ∙ sym (look-invalid l s.words u va old))
        | inr e ↦ elim (Bool-cases (has pte_v (s.words (slot (suc l) u va)))) [
          | inl v ↦
              (let next = next-AtLevel end l s (x ∷ xs) place u va own at v in
                look-valid l grown.words u va (s.words (slot (suc l) u va)) e v
                ∙ look-grown inner missing l (pte2pa (s.words (slot (suc l) u va))) va next
                ∙ sym (look-valid l s.words u va (s.words (slot (suc l) u va)) refl v))
          | inr v ↦
              (let still : has pte_v (grown.words (slot (suc l) u va)) ≡ false =
                  ap (λ (p : ℕ). has pte_v p) e ∙ v in
                look-invalid l grown.words u va still ∙ sym (look-invalid l s.words u va v))
        ]
      ]
