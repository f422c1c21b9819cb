-- ===== src/Memory/Paging/Frame.antt =====
-- A write into one of the user's pages leaves the page tables alone.
use startos.Prelude.{
  ℕ, zero, suc, ◌+◌, ◌*◌, ◌%◌, ◌^◌, ◌≤◌, ◌<◌, ◌≡◌, ◌≢◌, ◌⊎◌, inl, inr, refl, sym, subst, ap, ◌∙◌,
  List, count, All-count, arith, Bool-cases, ltb,
}
use startos.Memory.{Words}
use startos.Memory.Pages.{Memory}
use startos.Memory.Pages.Invariant.{Chain-frame, IsPage}
use startos.Memory.Paging.{pte_v, pte_u, has, pte2pa, px, slot}
use startos.Memory.Paging.Tree.{
  look, AtLevel, Places, Owns, AtLevel-inner, px-lt, next-AtLevel, look-valid, look-invalid,
}

module _ (end : ℕ) (s : Memory) (ps : List ℕ) (place : Places) (x : ℕ) (w : Words)
    (own : Owns end s ps place) (at_data : 2 ^ 27 ≤ place x)
    (outside : (a : ℕ) → (a + 8 ≤ x) ⊎ (x + 4096 ≤ a) → w a ≡ s.words a) where
  abbrev pub rewritten : Memory
  rewritten = record s { words = w }

  x_page : IsPage end x
  x_page = own.pages x (omega arith)

  -- The words of other pages.
  pub spared : (u a : ℕ) → IsPage end u → u ≢ x → a % 8 ≡ 0 → u ≤ a → a < u + 4096 → w a ≡ s.words a
  spared u a p ne al lo hi = elim (Bool-cases (ltb u x)) [
    | inl e ↦ outside a (inl (ground (arith, p.aligned, x_page.aligned)))
    | inr e ↦ outside a (inr (ground (arith, p.aligned, x_page.aligned)))
  ]

  table_entry :
      (u i : ℕ) → 1 ≤ place u → place u < 2 ^ 27 → i < 512 → w (u + 8 * i) ≡ s.words (u + 8 * i)
  table_entry u i c low fits =
      let p = own.pages u c in
      let ne : u ≢ x = λ e. absurd (
        let high : 2 ^ 27 ≤ place u = subst (λ b. 2 ^ 27 ≤ place b) (sym e) at_data in
        omega arith) in
      spared u (u + 8 * i) p ne (omega (arith, p.aligned)) (omega arith) (omega arith)

  pub rewritten-Owns : Owns end rewritten ps place
  rewritten-Owns = record {
    holds = record {
      chain = Chain-frame s.words w s.free_list ps own.holds.chain λ a c.
          (let p : IsPage end a = All-count (IsPage end) a ps own.holds.pages c in
            let ne : a ≢ x = λ e. absurd (
              let free_too : 1 ≤ count x ps = subst (λ b. 1 ≤ count b ps) e c in
              omega (arith, own.in_use x (omega arith))) in
            spared a a p ne (omega (arith, p.aligned)) (omega arith) (omega arith));
      pages = own.holds.pages;
      once = own.holds.once;
      counted = own.holds.counted;
    };
    pages = own.pages;
    in_use = own.in_use;
    links = λ u i c low fits valid.
        let same = table_entry u i c (omega arith) fits in
        ap (λ (e : ℕ). place (pte2pa e)) same
        ∙ own.links u i c low fits (ap (λ (e : ℕ). has pte_v e) (sym same) ∙ valid);
    leaves = λ u i high low fits valid user.
        let same = table_entry u i (omega arith) low fits in
        ap (λ (e : ℕ). place (pte2pa e)) same
        ∙ own.leaves u i high low fits (ap (λ (e : ℕ). has pte_v e) (sym same) ∙ valid)
            (ap (λ (e : ℕ). has pte_u e) (sym same) ∙ user);
  }

  pub look-rewritten : (l u va : ℕ) → AtLevel l (place u) → look l w u va ≡ look l s.words u va
  unfolding look
  look-rewritten zero u va at = table_entry u (px 0 va) (omega (arith, at)) at.1 (px-lt 0 va)
  look-rewritten (suc l) u va at =
      let inner = AtLevel-inner l (place u) at in
      let same = table_entry u (px (suc l) va) inner.0 (omega (arith, inner)) (px-lt (suc l) va) in
      let pte = s.words (slot (suc l) u va) in
      elim (Bool-cases (has pte_v pte)) [
        | inl valid ↦
            look-valid l w u va pte same valid
            ∙ look-rewritten l (pte2pa pte) va (next-AtLevel end l s ps place u va own at valid)
            ∙ sym (look-valid l s.words u va pte refl valid)
        | inr missing ↦
            look-invalid l w u va (ap (λ (e : ℕ). has pte_v e) same ∙ missing)
            ∙ sym (look-invalid l s.words u va missing)
      ]
