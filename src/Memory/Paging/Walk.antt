-- ===== src/Memory/Paging/Walk.antt =====
-- `walk` of kernel/memory/VmManager.cpp on a forest of page tables: it comes to the entry of its
-- address, and the tables that it adds change no entry of any address space.
use startos.Prelude.{
  ℕ, zero, suc, ◌+◌, ◌*◌, ◌^◌, ◌≤◌, ◌<◌, Bool, true, false, ◌≡◌, ◌≢◌, ◌⊎◌, inl, inr, refl, sym,
  subst, ap, ◌∙◌, List, [], ◌∷◌, length, List-cases, arith, Bool-cases, ne→==_false,
}
use startos.Memory.{store}
use startos.Memory.Pages.{Memory, alloc}
use startos.Memory.Pages.Invariant.{Holds, alloc-nil, alloc-cons}
use startos.Memory.Paging.{pte_v, has, pte2pa, px, slot, link, descend}
use startos.Memory.Paging.Tree.{
  look, AtLevel, Places, Owns, AtLevel-child, AtLevel-inner, AtLevel-some, px-lt, code, next_table,
  next-AtLevel, look-valid,
}
use startos.Memory.Paging.Grow.{
  set_place, grown-Owns, grown-link, grown-page, grown-entry, slot-inj, other, entry-fields,
  look-grown,
}

-- The forest has more tables than before, and every address space its entries and its pages.
pub record Grown (end : ℕ) (s : Memory) (ps : List ℕ) (place : Places) (s' : Memory) (ps' : List ℕ)
    (place' : Places) : Type 0 where
  pub owns : Owns end s' ps' place'
  pub codes : (u : ℕ) → 1 ≤ place u → place' u ≡ place u
  pub looks : (l u va : ℕ) → AtLevel l (place u) → look l s'.words u va ≡ look l s.words u va
  pub spared : (u a : ℕ) → 2 ^ 18 ≤ place u → u ≤ a → a < u + 4096 → s'.words a ≡ s.words a
  pub stays :
      (u i : ℕ)
      → 1 ≤ place u
      → i < 512
      → has pte_v (s.words (u + 8 * i)) ≡ true
      → s'.words (u + 8 * i) ≡ s.words (u + 8 * i)

-- Where a walk for `va` from the table `t` of the level ends: at the entry, or out of memory.
pub record Reached (l t va : ℕ) (ps : List ℕ) (c : ℕ) (r : ℕ × Memory) (ps' : List ℕ)
    (place' : Places) : Type 0 where
  pub outcome :
      ((t' : ℕ) × (r.0 ≡ slot 0 t' va)
        × AtLevel 0 (place' t')
        × (place' t' * 512 + px 0 va ≡ code l c va)
        × (look l r.1.words t va ≡ r.1.words r.0)
        × ((v : ℕ) → look l (store r.1.words r.0 v) t va ≡ v))
      ⊎ ((r.0 ≡ 0) × (ps' ≡ []))
  pub frugal : length ps ≤ length ps' + l

pub Grown-refl :
    (end : ℕ) (s : Memory) (ps : List ℕ) (place : Places)
    → Owns end s ps place
    → Grown end s ps place s ps place
Grown-refl end s ps place own = record {
  owns = own;
  codes = λ u c. refl;
  looks = λ l u va at. refl;
  spared = λ u a c lo hi. refl;
  stays = λ u i c fits valid. refl;
}

pub Grown-trans :
    (end : ℕ) (s : Memory) (ps : List ℕ) (place : Places) (s₁ : Memory) (ps₁ : List ℕ)
    (place₁ : Places) (s₂ : Memory) (ps₂ : List ℕ) (place₂ : Places)
    → Grown end s ps place s₁ ps₁ place₁
    → Grown end s₁ ps₁ place₁ s₂ ps₂ place₂
    → Grown end s ps place s₂ ps₂ place₂
Grown-trans end s ps place s₁ ps₁ place₁ s₂ ps₂ place₂ g h = record {
  owns = h.owns;
  codes = λ u c. h.codes u (rw (g.codes u c) c) ∙ g.codes u c;
  looks = λ l u va at.
      h.looks l u va (rw (g.codes u (AtLevel-some l (place u) at)) at) ∙ g.looks l u va at;
  spared =
      λ u a c lo hi. h.spared u a (rw (g.codes u (omega arith)) c) lo hi ∙ g.spared u a c lo hi;
  stays = λ u i c fits valid.
      let same = g.stays u i c fits valid in
      h.stays u i (rw (g.codes u c) c) fits (ap (λ (v : ℕ). has pte_v v) same ∙ valid) ∙ same;
}

true-ne-false : true ≢ false
true-ne-false e = ground arith

pub descend-valid :
    (l : ℕ) (s : Memory) (t va : ℕ) (may : Bool)
    → has pte_v (s.words (slot (suc l) t va)) ≡ true
    → descend (suc l) s t va may ≡ descend l s (pte2pa (s.words (slot (suc l) t va))) va may
unfolding descend
descend-valid l s t va may h = rw (descend, h) refl

pub descend-missing :
    (l : ℕ) (s : Memory) (t va : ℕ)
    → has pte_v (s.words (slot (suc l) t va)) ≡ false
    → descend (suc l) s t va false ≡ (0, s)
unfolding descend
descend-missing l s t va h = rw (descend, h) refl

descend-dry :
    (l : ℕ) (s : Memory) (t va : ℕ)
    → has pte_v (s.words (slot (suc l) t va)) ≡ false
    → alloc s ≡ (0, s)
    → descend (suc l) s t va true ≡ (0, s)
unfolding descend
descend-dry l s t va h e = rw (descend, h, e) (ap (λ (r : ℕ × Memory). (zero, r.1)) e)

descend-grow :
    (l : ℕ) (s : Memory) (t va x : ℕ)
    → has pte_v (s.words (slot (suc l) t va)) ≡ false
    → (alloc s).0 ≡ x
    → x ≢ 0
    → descend (suc l) s t va true ≡ descend l (link (alloc s).1 (slot (suc l) t va) x) x va true
unfolding descend
descend-grow l s t va x h e ne =
    rw (descend, h, e, ne→==_false x 0 ne)
      (ap (λ (y : ℕ). descend l (link (alloc s).1 (slot (suc l) t va) y) y va true) e)

module _ (end : ℕ) where
  -- One table more is growth.
  link-Grown :
      (l : ℕ) (s : Memory) (x : ℕ) (xs : List ℕ) (place : Places) (t va : ℕ)
      → Owns end s (x ∷ xs) place
      → AtLevel (suc l) (place t)
      → has pte_v (s.words (slot (suc l) t va)) ≡ false
      → Grown end s
          (x ∷ xs)
          place
          (link (alloc s).1 (slot (suc l) t va) x)
          xs
          (set_place place x (place t * 512 + px (suc l) va))
  link-Grown l s x xs place t va own at missing =
      let inner = AtLevel-inner l (place t) at in
      let i = px (suc l) va in
      let fits = px-lt (suc l) va in
      record {
        owns = grown-Owns end s x xs place t i own inner.0 fits inner.1;
        codes = λ u c. rw (ne→==_false u x (other end s x xs place t i own inner.0 fits u c)) refl;
        looks =
            λ k u v up. look-grown end s x xs place t i own inner.0 fits inner.1 missing k u v up;
        spared = λ u a c lo hi.
            grown-page end s x xs place t i own inner.0 fits u a (omega arith) lo hi
              (far u a c lo hi inner.0 inner.1 fits);
        stays = λ u j c bound valid.
            elim (grown-entry end s x xs place t i own inner.0 fits u j c bound) [
              | inl (at_t, at_i) ↦ absurd (
                  let invalid : has pte_v (s.words (u + 8 * j)) ≡ false = rw (at_t, at_i) missing in
                  true-ne-false (sym valid ∙ invalid))
              | inr same ↦ same
            ];
      }
    where
      far :
          (u a : ℕ)
          → 2 ^ 18 ≤ place u
          → u ≤ a
          → a < u + 4096
          → 1 ≤ place t
          → place t < 2 ^ 18
          → px (suc l) va < 512
          → a ≢ slot (suc l) t va
      far u a c lo hi pos low fits e =
          let same : u ≡ t =
            omega (arith, (own.pages u (omega arith)).aligned, (own.pages t pos).aligned) in
          absurd (let high : 2 ^ 18 ≤ place t = subst (λ v. 2 ^ 18 ≤ place v) same c in omega arith)

  abbrev pub Walked :
      (l : ℕ) (s : Memory) (ps : List ℕ) (place : Places) (t va : ℕ) (r : ℕ × Memory) → Type 0
  Walked l s ps place t va r =
      (ps' : List ℕ) × (place' : Places) × Grown end s ps place r.1 ps' place'
      × Reached l t va ps (place t) r ps' place'

  -- One level down, to a table that was there or that has been added.
  step_down :
      (l : ℕ) (s : Memory) (ps : List ℕ) (place : Places) (t va : ℕ) (s₁ : Memory) (ps₁ : List ℕ)
      (place₁ : Places)
      → Grown end s ps place s₁ ps₁ place₁
      → length ps ≤ length ps₁ + 1
      → AtLevel (suc l) (place t)
      → has pte_v (s₁.words (slot (suc l) t va)) ≡ true
      → (r : ℕ × Memory) → Walked l s₁ ps₁ place₁ (pte2pa (s₁.words (slot (suc l) t va))) va r
      → Walked (suc l) s ps place t va r
  step_down l s ps place t va s₁ ps₁ place₁ g few at valid r (ps₂, place₂, h, q) =
      let u = pte2pa (s₁.words (slot (suc l) t va)) in
      let kept : place₁ t ≡ place t = g.codes t (AtLevel-some (suc l) (place t) at) in
      let at₁ : AtLevel (suc l) (place₁ t) = rw kept at in
      let code_u : place₁ u ≡ place t * 512 + px (suc l) va =
        next_table end l s₁ ps₁ place₁ t va g.owns at₁ valid
        ∙ ap (λ (c : ℕ). c * 512 + px (suc l) va) kept in
      let at_u : AtLevel l (place₁ u) =
        rw code_u (AtLevel-child l (place t) (px (suc l) va) at (px-lt (suc l) va)) in
      let via : look (suc l) r.1.words t va ≡ look l r.1.words u va =
        h.looks (suc l) t va at₁
        ∙ look-valid l s₁.words t va (s₁.words (slot (suc l) t va)) refl valid
        ∙ sym (h.looks l u va at_u) in
      (
        ps₂,
        place₂,
        Grown-trans end s ps place s₁ ps₁ place₁ r.1 ps₂ place₂ g h,
        record {
          outcome = elim q.outcome [
            | inl (t', where_to, leaf, coded, found, set) ↦ inl (
              t',
              where_to,
              leaf,
              coded ∙ ap (λ (c : ℕ). code l c va) code_u,
              via ∙ found,
              λ v.
                  look-valid l (store r.1.words r.0 v) t va (s₁.words (slot (suc l) t va))
                    (aside t' where_to leaf v) valid
                  ∙ set v,
            )
            | inr dry ↦ inr dry
          ];
          frugal = omega (arith, q.frugal);
        },
      )
    where
      -- The link taken is not the entry that the walk ends at.
      aside :
          (t' : ℕ)
          → r.0 ≡ slot 0 t' va
          → AtLevel 0 (place₂ t')
          → (v : ℕ) → store r.1.words r.0 v (slot (suc l) t va) ≡ s₁.words (slot (suc l) t va)
      aside t' where_to leaf v =
          let coded = g.codes t (AtLevel-some (suc l) (place t) at) in
          let inner = AtLevel-inner l (place t) at in
          let later : place₂ t ≡ place t = h.codes t (rw coded inner.0) ∙ coded in
          let t_page = h.owns.pages t (rw later inner.0) in
          let end_page = h.owns.pages t' (omega (arith, leaf)) in
          let ne : slot (suc l) t va ≢ r.0 = λ e. absurd (
            let same =
              slot-inj t t' (px (suc l) va) (px 0 va) t_page.aligned end_page.aligned
                (px-lt (suc l) va) (px-lt 0 va) (e ∙ where_to) in
            let low : place₂ t' < 2 ^ 18 =
              subst (λ b. place₂ b < 2 ^ 18) same.0 (rw later inner.1) in
            omega (arith, leaf)) in
          rw (ne→==_false (slot (suc l) t va) r.0 ne)
            (h.stays t (px (suc l) va) (rw coded inner.0) (px-lt (suc l) va) valid)

  base :
      (s : Memory) (ps : List ℕ) (place : Places) (t va : ℕ)
      → Owns end s ps place
      → AtLevel 0 (place t)
      → Walked 0 s ps place t va (descend 0 s t va true)
  unfolding descend look
  base s ps place t va own at = (
    ps,
    place,
    Grown-refl end s ps place own,
    record { outcome = inl (t, refl, at, refl, refl, λ v. ground arith); frugal = omega arith },
  )

  -- Below a missing table, given the walk below the new one.
  added :
      (l : ℕ) (s : Memory) (ps : List ℕ) (place : Places) (t va : ℕ)
      → Owns end s ps place
      → AtLevel (suc l) (place t)
      → has pte_v (s.words (slot (suc l) t va)) ≡ false
      → (ps ≡ []) ⊎ ((x : ℕ) × (xs : List ℕ) × (ps ≡ x ∷ xs))
      → ((s₁ : Memory) (ps₁ : List ℕ) (place₁ : Places) (u : ℕ)
          → Owns end s₁ ps₁ place₁
          → AtLevel l (place₁ u)
          → Walked l s₁ ps₁ place₁ u va (descend l s₁ u va true))
      → Walked (suc l) s ps place t va (descend (suc l) s t va true)
  added l s ps place t va own at missing (inl none_left) below =
      let dry : alloc s ≡ (0, s) =
        alloc-nil end s (subst (λ xs. Holds end s xs) none_left own.holds) in
      subst (λ r. Walked (suc l) s ps place t va r) (sym (descend-dry l s t va missing dry))
        (
          ps,
          place,
          Grown-refl end s ps place own,
          record { outcome = inr (refl, none_left); frugal = omega arith },
        )
  added l s ps place t va own at missing (inr (x, xs, e)) below =
      let own' : Owns end s (x ∷ xs) place = subst (λ ys. Owns end s ys place) e own in
      let i = px (suc l) va in
      let fits = px-lt (suc l) va in
      let inner = AtLevel-inner l (place t) at in
      let g = link-Grown l s x xs place t va own' at missing in
      let got = alloc-cons end s x xs own'.holds in
      let s₁ = link (alloc s).1 (slot (suc l) t va) x in
      let place₁ = set_place place x (place t * 512 + i) in
      let fields =
        entry-fields x own'.holds.pages.0.aligned (omega (arith, own'.holds.pages.0.below)) in
      let new = grown-link end s x xs place t i own' inner.0 fits in
      let valid : has pte_v (s₁.words (slot (suc l) t va)) ≡ true =
        ap (λ (v : ℕ). has pte_v v) new ∙ fields.0 in
      let to : pte2pa (s₁.words (slot (suc l) t va)) ≡ x =
        ap (λ (v : ℕ). pte2pa v) new ∙ fields.1 in
      let at_t : AtLevel (suc l) (place₁ t) = rw (g.codes t inner.0) at in
      let at_x : AtLevel l (place₁ x) =
        subst (λ u. AtLevel l (place₁ u)) to
          (next-AtLevel end l s₁ xs place₁ t va g.owns at_t valid) in
      subst (λ r. Walked (suc l) s ps place t va r)
        (sym (descend-grow l s t va x missing got.page own'.holds.chain.1))
        (subst (λ ys. Walked (suc l) s ys place t va (descend l s₁ x va true)) (sym e)
          (step_down l s (x ∷ xs) place t va s₁ xs place₁ g (omega arith) at valid _ (
            subst (λ u. Walked l s₁ xs place₁ u va (descend l s₁ x va true)) (sym to)
              (below s₁ xs place₁ x g.owns at_x))))

  -- A walk that may add tables ends at the entry, or returns the null pointer when no page is free.
  pub descend-Walked :
      (l : ℕ) (s : Memory) (ps : List ℕ) (place : Places) (t va : ℕ)
      → Owns end s ps place
      → AtLevel l (place t)
      → Walked l s ps place t va (descend l s t va true)
  descend-Walked zero s ps place t va own at = base s ps place t va own at
  descend-Walked (suc l) s ps place t va own at =
      elim (Bool-cases (has pte_v (s.words (slot (suc l) t va)))) [
        | inl valid ↦
            (let next = next-AtLevel end l s ps place t va own at valid in
              subst (λ r. Walked (suc l) s ps place t va r)
                (sym (descend-valid l s t va true valid))
                (step_down l s ps place t va s ps place (Grown-refl end s ps place own)
                  (omega arith) at valid _
                  (descend-Walked l s ps place (pte2pa (s.words (slot (suc l) t va))) va own next)))
        | inr missing ↦
            added l s ps place t va own at missing (List-cases ps)
              (λ s₁ ps₁ place₁ u o a. descend-Walked l s₁ ps₁ place₁ u va o a)
      ]
