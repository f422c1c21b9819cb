-- ===== src/Memory/Paging/Map.antt =====
-- `mappages` of kernel/memory/VmManager.cpp as an update of an address space.
use startos.Prelude.{
  ℕ, ◌+◌, ◌*◌, ◌/◌, ◌^◌, ◌≤◌, ◌<◌, true, ◌≡◌, ◌≢◌, ◌⊎◌, inl, inr, sym, subst, ap, ◌∙◌, List, [],
  length, arith,
}
use startos.Memory.{store}
use startos.Memory.Pages.{Memory}
use startos.Memory.Paging.{pte_v, pte_u, has, pte2pa, px, slot, descend, set_pte}
use startos.Memory.Paging.Tree.{
  look, entry, AtLevel, AtLevel-some, Places, Owns, code, code-eq, px-lt,
}
use startos.Memory.Paging.Walk.{Grown, descend-Walked}
use startos.Memory.Paging.Leaf.{written-Owns, written-spared, look-written}

-- The number of a page in all address spaces together.
abbrev pub page_code : Places → ℕ → ℕ → ℕ
page_code place root va = place root * 2 ^ 27 + va / 4096

-- How the forest before an update and after it compare, beside the entries updated: every page has
-- its code still, and the pages of memory hold what they held.
pub record Remapped (end : ℕ) (s : Memory) (place : Places) (s' : Memory) (ps' : List ℕ)
    (place' : Places) : Type 0 where
  pub owns : Owns end s' ps' place'
  pub codes : (u : ℕ) → 1 ≤ place u → place' u ≡ place u
  pub spared : (u a : ℕ) → 2 ^ 27 ≤ place u → u ≤ a → a < u + 4096 → s'.words a ≡ s.words a

-- The entry for `va` in the space of `root` became `v`, and no other one changed.
pub record Set (s : Memory) (place : Places) (root va v : ℕ) (s' : Memory) : Type 0 where
  pub here : entry s' root va ≡ v
  pub elsewhere :
      (r vb : ℕ)
      → AtLevel 2 (place r)
      → vb < 2 ^ 38
      → page_code place r vb ≢ page_code place root va
      → entry s' r vb ≡ entry s r vb

-- One round of `mappages`: out of memory, or the entry set.
pub record Round (end : ℕ) (s : Memory) (ps : List ℕ) (place : Places) (root va pte : ℕ)
    (r : ℕ × Memory) : Type 0 where
  pub ps' : List ℕ
  pub place' : Places
  pub frugal : length ps ≤ length ps' + 2
  pub outcome :
      ((r.0 ≡ 0)
        × (ps' ≡ [])
        × Remapped end s place r.1 ps' place'
        × ((u vb : ℕ) → AtLevel 2 (place u) → entry r.1 u vb ≡ entry s u vb))
      ⊎ ((r.0 ≢ 0)
          × (r.1.words r.0 ≡ entry s root va)
          × Remapped end s place (set_pte r.1 r.0 pte) ps' place'
          × Set s place root va pte (set_pte r.1 r.0 pte))

module _ (end : ℕ) (pos : 0 < end) where
  -- Where the walk has come to the entry, the entry is set.
  set_entry :
      (s : Memory) (ps : List ℕ) (place : Places) (root va pte : ℕ)
      → AtLevel 2 (place root)
      → va < 2 ^ 38
      → (has pte_v pte ≡ true → has pte_u pte ≡ true → place (pte2pa pte) ≡ page_code place root va)
      → (ps' : List ℕ) (place' : Places) (r : ℕ × Memory) → Grown end s ps place r.1 ps' place'
      → (t : ℕ) → r.0 ≡ slot 0 t va
      → AtLevel 0 (place' t)
      → place' t * 512 + px 0 va ≡ code 2 (place root) va
      → look 2 r.1.words root va ≡ r.1.words r.0
      → ((v : ℕ) → look 2 (store r.1.words r.0 v) root va ≡ v)
      → (r.0 ≢ 0)
        × (r.1.words r.0 ≡ entry s root va)
        × Remapped end s place (set_pte r.1 r.0 pte) ps' place'
        × Set s place root va pte (set_pte r.1 r.0 pte)
  set_entry s ps place root va pte at small right ps' place' (p, s') g t where_to leaf coded found
        set =
      let full : place' t * 512 + px 0 va ≡ page_code place root va =
        coded ∙ code-eq (place root) va small in
      let t_page = g.owns.pages t (omega (arith, leaf)) in
      let i = px 0 va in
      let fits = px-lt 0 va in
      (
        omega (arith, t_page.above),
        sym found ∙ g.looks 2 root va at,
        record {
          owns =
              subst (λ q. Owns end (set_pte s' q pte) ps' place') (sym where_to)
                (written-Owns end s' ps' place' t i pte g.owns leaf fits λ valid for_user.
                  let old = right valid for_user in
                  g.codes (pte2pa pte) (omega arith) ∙ old ∙ sym full);
          codes = g.codes;
          spared = λ u a c lo hi.
              let coded_u : place' u ≡ place u = g.codes u (omega arith) in
              let ne : u ≢ t = λ e. absurd (
                let high : 2 ^ 27 ≤ place' t = subst (λ b. 2 ^ 27 ≤ place' b) e (rw coded_u c) in
                omega (arith, leaf)) in
              subst (λ q. store s'.words q pte a ≡ s'.words a) (sym where_to)
                (written-spared end s' ps' place' t i pte g.owns leaf fits u a (omega arith) ne lo
                  hi)
              ∙ g.spared u a (omega arith) lo hi;
        },
        record {
          here = set pte;
          elsewhere = λ u vb up vb_small ne.
              let coded_u : place' u ≡ place u = g.codes u (AtLevel-some 2 (place u) up) in
              let apart : code 2 (place' u) vb ≢ place' t * 512 + px 0 va = λ e. ne (
                sym (code-eq (place u) vb vb_small)
                ∙ ap (λ (c : ℕ). code 2 c vb) (sym coded_u)
                ∙ e
                ∙ full) in
              subst (λ q. look 2 (store s'.words q pte) u vb ≡ look 2 s'.words u vb) (sym where_to)
                (look-written end s' ps' place' t i pte g.owns leaf fits 2 u vb (rw coded_u up)
                  apart)
              ∙ g.looks 2 u vb up;
        },
      )

  pub descend-Round :
      (s : Memory) (ps : List ℕ) (place : Places) (root va pte : ℕ)
      → Owns end s ps place
      → AtLevel 2 (place root)
      → va < 2 ^ 38
      → (has pte_v pte ≡ true → has pte_u pte ≡ true → place (pte2pa pte) ≡ page_code place root va)
      → Round end s ps place root va pte (descend 2 s root va true)
  descend-Round s ps place root va pte own at small right =
      let (ps', place', g, q) = descend-Walked end 2 s ps place root va own at in
      let r = descend 2 s root va true in
      record {
        ps' = ps';
        place' = place';
        frugal = q.frugal;
        outcome = elim q.outcome [
          | inr (null, dry) ↦ inl (
            null,
            dry,
            record {
              owns = g.owns;
              codes = g.codes;
              spared = λ u a c lo hi. g.spared u a (omega arith) lo hi;
            },
            λ u vb up. g.looks 2 u vb up,
          )
          | inl (t, where_to, leaf, coded, found, set) ↦ inr (
              set_entry s ps place root va pte at small right ps' place' r g t where_to leaf coded
                found set)
        ];
      }
