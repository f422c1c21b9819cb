-- ===== src/Memory/Paging/Leaf.antt =====
-- A last-level entry written, in a forest of page tables: the entry of one page of one address space.
use startos.Prelude.{
  ℕ, zero, suc, ◌+◌, ◌*◌, ◌/◌, ◌%◌, ◌^◌, ◌≤◌, ◌<◌, ◌==◌, true, ◌≡◌, ◌≢◌, ◌⊎◌, inl, inr, refl, sym,
  subst, ap, ◌∙◌, List, count, All-count, arith, Bool-cases, bit_or, ne→==_false,
}
use startos.Prelude.Bits.{bit_or-one, bit_or-fields}
use startos.Memory.{Words}
use startos.Memory.Pages.{Memory}
use startos.Memory.Pages.Invariant.{Chain-frame, IsPage, Holds}
use startos.Memory.Paging.{pte_v, pte_u, has, pa2pte, pte2pa, px, slot, set_pte}
use startos.Memory.Paging.Tree.{
  look, AtLevel, Places, Owns, AtLevel-inner, AtLevel-some, px-lt, code, next_table, next-AtLevel,
  look-valid, look-invalid,
}
use startos.Memory.Paging.Grow.{slot-inj, set_place}

-- The entry that `mappages` makes.
abbrev pub pte_of : ℕ → ℕ → ℕ
pte_of pa perm = bit_or (bit_or (pa2pte pa) perm) pte_v

pub pte_of-valid : (pa perm : ℕ) → has pte_v (pte_of pa perm) ≡ true
pte_of-valid pa perm = rw (bit_or-one (bit_or (pa2pte pa) perm)) (ground arith)

pub pte_of-fields :
    (pa perm : ℕ)
    → pa % 4096 ≡ 0
    → pa < 2 ^ 56
    → perm < 1024
    → (pte2pa (pte_of pa perm) ≡ pa) × (has pte_u (pte_of pa perm) ≡ has pte_u perm)
pte_of-fields pa perm al small low =
    rw (bit_or-one (bit_or (pa2pte pa) perm), bit_or-fields 10 (pa / 2 ^ 12) perm (omega arith))
      (ground arith)

-- A walk reads only the number of the page.
look-px :
    (l : ℕ) (w : Words) (t va vb : ℕ)
    → ((k : ℕ) → k ≤ l → px k va ≡ px k vb)
    → look l w t va ≡ look l w t vb
unfolding look
look-px zero w t va vb h = ap (λ (p : ℕ). w (t + 8 * p)) (h 0 (omega arith))
look-px (suc l) w t va vb h =
    let same : w (slot (suc l) t va) ≡ w (slot (suc l) t vb) =
      ap (λ (p : ℕ). w (t + 8 * p)) (h (suc l) (omega arith)) in
    let pte = w (slot (suc l) t vb) in
    elim (Bool-cases (has pte_v pte)) [
      | inl valid ↦
          look-valid l w t va pte same valid
          ∙ look-px l w (pte2pa pte) va vb (λ k b. h k (omega arith))
          ∙ sym (look-valid l w t vb pte refl valid)
      | inr missing ↦
          look-invalid l w t va (ap (λ (e : ℕ). has pte_v e) same ∙ missing)
          ∙ sym (look-invalid l w t vb missing)
    ]

px-page : (va vb : ℕ) → va / 4096 ≡ vb / 4096 → (k : ℕ) → k ≤ 2 → px k va ≡ px k vb
px-page va vb e zero b = omega arith
px-page va vb e (suc zero) b = omega arith
px-page va vb e (suc (suc zero)) b = omega arith
px-page va vb e (suc (suc (suc k))) b = absurd (omega arith)

pub look-page : (w : Words) (t va vb : ℕ) → va / 4096 ≡ vb / 4096 → look 2 w t va ≡ look 2 w t vb
look-page w t va vb e = look-px 2 w t va vb (px-page va vb e)

module _ (end : ℕ) (s : Memory) (ps : List ℕ) (place : Places) (t i v : ℕ)
    (own : Owns end s ps place) (leaf : AtLevel 0 (place t)) (i_fits : i < 512) where
  abbrev pub written : Memory
  written = set_pte s (t + 8 * i) v

  t_page : IsPage end t
  t_page = own.pages t (omega (arith, leaf))

  written-entry :
      (u j : ℕ)
      → 1 ≤ place u
      → j < 512
      → ((u ≡ t) × (j ≡ i)) ⊎ (written.words (u + 8 * j) ≡ s.words (u + 8 * j))
  written-entry u j c fits = elim (Bool-cases (u + 8 * j == t + 8 * i)) [
    | inl e ↦
        inl (slot-inj u t j i (own.pages u c).aligned t_page.aligned fits i_fits (ground arith))
    | inr e ↦ inr (rw e refl)
  ]

  -- Pages other than the table keep their words.
  pub written-spared :
      (u a : ℕ) → 1 ≤ place u → u ≢ t → u ≤ a → a < u + 4096 → written.words a ≡ s.words a
  written-spared u a c ne lo hi =
      let p = own.pages u c in
      let apart : a ≢ t + 8 * i = omega (arith, p.aligned, t_page.aligned) in
      rw (ne→==_false a (t + 8 * i) apart) refl

  written-inner :
      (u j : ℕ)
      → 1 ≤ place u
      → place u < 2 ^ 18
      → j < 512
      → written.words (u + 8 * j) ≡ s.words (u + 8 * j)
  written-inner u j c low fits = elim (written-entry u j c fits) [
    | inl (at_t, at_i) ↦ absurd (
        let small : place t < 2 ^ 18 = subst (λ b. place b < 2 ^ 18) at_t low in
        omega (arith, leaf))
    | inr e ↦ e
  ]

  written-Holds : Holds end written ps
  written-Holds = record {
    chain = Chain-frame s.words written.words s.free_list ps own.holds.chain (λ a c. spared a c);
    pages = own.holds.pages;
    once = own.holds.once;
    counted = own.holds.counted;
  }
    where
      spared : (a : ℕ) → 1 ≤ count a ps → written.words a ≡ s.words a
      spared a c =
          let p : IsPage end a = All-count (IsPage end) a ps own.holds.pages c in
          let ne : a ≢ t + 8 * i = λ e. absurd (
            let here : a ≡ t = omega (arith, p.aligned, t_page.aligned) in
            let free_too : 1 ≤ count t ps = subst (λ b. 1 ≤ count b ps) here c in
            omega (arith, own.in_use t (omega (arith, leaf)))) in
          rw (ne→==_false a (t + 8 * i) ne) refl

  -- The forest is kept if the user's entries lead to the page with their code.
  pub written-Owns :
      (has pte_v v ≡ true → has pte_u v ≡ true → place (pte2pa v) ≡ place t * 512 + i)
      → Owns end written ps place
  written-Owns right = record {
    holds = written-Holds;
    pages = own.pages;
    in_use = own.in_use;
    links = λ u j c low fits valid.
        let same = written-inner u j c low fits in
        ap (λ (e : ℕ). place (pte2pa e)) same
        ∙ own.links u j c low fits (ap (λ (e : ℕ). has pte_v e) (sym same) ∙ valid);
    leaves = λ u j high low fits valid for_user. elim (written-entry u j (omega arith) fits) [
      | inl (at_t, at_i) ↦
          (let same : written.words (u + 8 * j) ≡ v = rw (at_t, at_i) (ground arith) in
            ap (λ (e : ℕ). place (pte2pa e)) same
            ∙ right (ap (λ (e : ℕ). has pte_v e) (sym same) ∙ valid)
                (ap (λ (e : ℕ). has pte_u e) (sym same) ∙ for_user)
            ∙ sym (ap (λ (b : ℕ). place b * 512 + j) at_t ∙ ap (λ (b : ℕ). place t * 512 + b) at_i))
      | inr same ↦
          ap (λ (e : ℕ). place (pte2pa e)) same
          ∙ own.leaves u j high low fits (ap (λ (e : ℕ). has pte_v e) (sym same) ∙ valid)
              (ap (λ (e : ℕ). has pte_u e) (sym same) ∙ for_user)
    ];
  }

  -- Any walk for another page, or in another space, comes to the entry that it came to before.
  pub look-written :
      (l u va : ℕ)
      → AtLevel l (place u)
      → code l (place u) va ≢ place t * 512 + i
      → look l written.words u va ≡ look l s.words u va
  unfolding look
  look-written zero u va at ne =
      elim (written-entry u (px 0 va) (AtLevel-some 0 (place u) at) (px-lt 0 va)) [
        | inl (at_t, at_i) ↦ absurd (
            ne (
              ap (λ (b : ℕ). place b * 512 + px 0 va) at_t
              ∙ ap (λ (b : ℕ). place t * 512 + b) at_i))
        | inr e ↦ e
      ]
  look-written (suc l) u va at ne =
      let inner = AtLevel-inner l (place u) at in
      let same = written-inner u (px (suc l) va) inner.0 inner.1 (px-lt (suc l) va) in
      elim (Bool-cases (has pte_v (s.words (slot (suc l) u va)))) [
        | inl valid ↦
            (let next = next-AtLevel end l s ps place u va own at valid in
              let coded = next_table end l s ps place u va own at valid in
              look-valid l written.words u va (s.words (slot (suc l) u va)) same valid
              ∙ look-written l (pte2pa (s.words (slot (suc l) u va))) va next
                  (λ e. ne (ap (λ (c : ℕ). code l c va) (sym coded) ∙ e))
              ∙ sym (look-valid l s.words u va (s.words (slot (suc l) u va)) refl valid))
        | inr missing ↦
            look-invalid l written.words u va (ap (λ (e : ℕ). has pte_v e) same ∙ missing)
            ∙ sym (look-invalid l s.words u va missing)
      ]

-- A page that is neither free nor in a forest joins it as a page of memory.
pub Owns-claim :
    (end : ℕ) (s : Memory) (ps : List ℕ) (place : Places) (x c : ℕ)
    → Owns end s ps place
    → IsPage end x
    → count x ps ≡ 0
    → place x ≡ 0
    → 2 ^ 27 ≤ c
    → Owns end s ps (set_place place x c)
Owns-claim end s ps place x c own page taken fresh at_data = record {
  holds = own.holds;
  pages = λ u k. elim (Bool-cases (u == x)) [
    | inl e ↦ (let same : u ≡ x = ground arith in rw same page)
    | inr e ↦ own.pages u (rw e at k)
  ];
  in_use = λ u k. elim (Bool-cases (u == x)) [
    | inl e ↦ (let same : u ≡ x = ground arith in rw same taken)
    | inr e ↦ own.in_use u (rw e at k)
  ];
  links = λ u i k low fits valid.
      let ne : u ≢ x = λ e. absurd (ground arith) in
      let same : set_place place x c u ≡ place u = rw (ne→==_false u x ne) refl in
      let old = own.links u i (rw same at k) (rw same at low) fits valid in
      kept (pte2pa (s.words (u + 8 * i))) (place u * 512 + i) old (omega arith)
      ∙ ap (λ (d : ℕ). d * 512 + i) (sym same);
  leaves = λ u i k low fits valid for_user.
      let ne : u ≢ x = λ e. absurd (ground arith) in
      let same : set_place place x c u ≡ place u = rw (ne→==_false u x ne) refl in
      let old = own.leaves u i (rw same at k) (rw same at low) fits valid for_user in
      kept (pte2pa (s.words (u + 8 * i))) (place u * 512 + i) old (omega arith)
      ∙ ap (λ (d : ℕ). d * 512 + i) (sym same);
}
  where
    kept : (u d : ℕ) → place u ≡ d → 1 ≤ d → set_place place x c u ≡ d
    kept u d e k =
        let ne : u ≢ x = λ f. absurd (let none_here : place u ≡ 0 = rw f fresh in omega arith) in
        rw (ne→==_false u x ne) e
