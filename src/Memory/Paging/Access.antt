-- ===== src/Memory/Paging/Access.antt =====
-- What the user reaches through a forest of page tables, by `walkAddr` of kernel/memory/VmManager.cpp.
use startos.Prelude.{
  ℕ, zero, suc, ◌/◌, ◌^◌, ◌<◌, if◌then◌else◌, ◌&&◌, Bool, true, false, ◌≡◌, ◌≢◌, ◌⊎◌, inl, inr,
  refl, sym, ap, ◌∙◌, List, arith, Bool-cases, ne→==_false, leb,
}
use startos.Memory.Pages.{Memory}
use startos.Memory.Paging.{pte_v, pte_u, has, pte2pa, px, slot, descend, walk_addr}
use startos.Memory.Paging.Tree.{
  look, entry, AtLevel, Places, Owns, px-lt, code, code-eq, next_table, next-AtLevel, look-valid,
  look-invalid,
}
use startos.Memory.Paging.Walk.{descend-valid, descend-missing}
use startos.Memory.Paging.Map.{page_code}

abbrev pub for_user : ℕ → Bool
for_user pte = has pte_v pte && has pte_u pte

module _ (end : ℕ) (s : Memory) (ps : List ℕ) (place : Places) (own : Owns end s ps place) where
  -- An entry for the user leads to the page whose code says where the entry stands.
  look-place :
      (l t va : ℕ)
      → AtLevel l (place t)
      → has pte_v (look l s.words t va) ≡ true
      → has pte_u (look l s.words t va) ≡ true
      → place (pte2pa (look l s.words t va)) ≡ code l (place t) va
  unfolding look
  look-place zero t va at valid user = own.leaves t (px 0 va) at.0 at.1 (px-lt 0 va) valid user
  look-place (suc l) t va at valid user =
      elim (Bool-cases (has pte_v (s.words (slot (suc l) t va)))) [
        | inl v ↦
            (let u = pte2pa (s.words (slot (suc l) t va)) in
              let same = look-valid l s.words t va (s.words (slot (suc l) t va)) refl v in
              let coded = next_table end l s ps place t va own at v in
              let next = next-AtLevel end l s ps place t va own at v in
              ap (λ (e : ℕ). place (pte2pa e)) same
              ∙ look-place l u va next (ap (λ (e : ℕ). has pte_v e) (sym same) ∙ valid)
                  (ap (λ (e : ℕ). has pte_u e) (sym same) ∙ user)
              ∙ ap (λ (c : ℕ). code l c va) coded)
        | inr v ↦ absurd (
            let empty = look-invalid l s.words t va v in
            let wrong : has pte_v 0 ≡ true = ap (λ (e : ℕ). has pte_v e) (sym empty) ∙ valid in
            ground arith)
      ]

  pub entry-place :
      (root va : ℕ)
      → AtLevel 2 (place root)
      → va < 2 ^ 38
      → for_user (entry s root va) ≡ true
      → place (pte2pa (entry s root va)) ≡ page_code place root va
  entry-place root va at small h =
      let valid : has pte_v (entry s root va) ≡ true = ground arith in
      let user : has pte_u (entry s root va) ≡ true = ground arith in
      look-place 2 root va at valid user ∙ code-eq (place root) va small

  -- Without adding tables, a walk returns the null pointer where a table is missing and else the
  -- address of the entry.
  pub descend-look :
      0 < end
      → (l t va : ℕ) → AtLevel l (place t)
      → (((descend l s t va false).0 ≡ 0) × (look l s.words t va ≡ 0))
        ⊎ (((descend l s t va false).0 ≢ 0)
            × (s.words (descend l s t va false).0 ≡ look l s.words t va))
  unfolding descend look
  descend-look pos zero t va at =
      let t_page = own.pages t (omega (arith, at)) in inr (omega (arith, t_page.above), refl)
  descend-look pos (suc l) t va at = elim (Bool-cases (has pte_v (s.words (slot (suc l) t va)))) [
    | inl v ↦
        (let u = pte2pa (s.words (slot (suc l) t va)) in
          let below = descend-look pos l u va (next-AtLevel end l s ps place t va own at v) in
          let to = descend-valid l s t va false v in
          let same = look-valid l s.words t va (s.words (slot (suc l) t va)) refl v in
          elim below [
            | inl (null, empty) ↦ inl (ap (λ (r : ℕ × Memory). r.0) to ∙ null, same ∙ empty)
            | inr (some, e) ↦ inr (
              λ z. some (sym (ap (λ (r : ℕ × Memory). r.0) to) ∙ z),
              ap (λ (r : ℕ × Memory). s.words r.0) to ∙ e ∙ sym same,
            )
          ])
    | inr v ↦
        inl
          (ap (λ (r : ℕ × Memory). r.0) (descend-missing l s t va v), look-invalid l s.words t va v)
  ]

  -- `walkAddr` is the physical page of the entry if it is valid and for the user, and else 0.
  pub walk_addr-eq :
      0 < end
      → (root va : ℕ) → AtLevel 2 (place root)
      → va < 2 ^ 38
      → walk_addr s root va ≡ (if for_user (entry s root va) then pte2pa (entry s root va) else 0)
  unfolding walk_addr
  walk_addr-eq pos root va at small =
      let in_range : leb (2 ^ 38) va ≡ false = ground arith in
      elim (descend-look pos 2 root va at) [
        | inl (null, empty) ↦ rw (walk_addr, in_range, null, empty) refl
        | inr (some, e) ↦
            by_flags in_range some e (Bool-cases (has pte_v (entry s root va)))
              (Bool-cases (has pte_u (entry s root va)))
      ]
    where
      flag :
          (f : ℕ) (b : Bool)
          → s.words (descend 2 s root va false).0 ≡ entry s root va
          → has f (entry s root va) ≡ b
          → has f (s.words (descend 2 s root va false).0) ≡ b
      flag f b e h = ap (λ (q : ℕ). has f q) e ∙ h

      by_flags :
          leb (2 ^ 38) va ≡ false
          → (descend 2 s root va false).0 ≢ 0
          → s.words (descend 2 s root va false).0 ≡ entry s root va
          → (has pte_v (entry s root va) ≡ true) ⊎ (has pte_v (entry s root va) ≡ false)
          → (has pte_u (entry s root va) ≡ true) ⊎ (has pte_u (entry s root va) ≡ false)
          → walk_addr s root va
            ≡ (if for_user (entry s root va) then pte2pa (entry s root va) else 0)
      by_flags in_range some e (inl v) (inl u) =
          rw
            (
              walk_addr,
              in_range,
              ne→==_false (descend 2 s root va false).0 0 some,
              flag pte_v true e v,
              flag pte_u true e u,
              v,
              u,
            )
            (ap (λ (q : ℕ). pte2pa q) e)
      by_flags in_range some e (inl v) (inr u) =
          rw
            (
              walk_addr,
              in_range,
              ne→==_false (descend 2 s root va false).0 0 some,
              flag pte_v true e v,
              flag pte_u false e u,
              v,
              u,
            )
            refl
      by_flags in_range some e (inr v) u =
          rw
            (
              walk_addr,
              in_range,
              ne→==_false (descend 2 s root va false).0 0 some,
              flag pte_v false e v,
              v,
            )
            refl

  -- What the user reaches is a page of its own.
  pub walk_addr-place :
      0 < end
      → (root va : ℕ) → AtLevel 2 (place root)
      → va < 2 ^ 38
      → walk_addr s root va ≢ 0
      → place (walk_addr s root va) ≡ page_code place root va
  walk_addr-place pos root va at small some = elim (Bool-cases (for_user (entry s root va))) [
    | inl e ↦
        (let to : walk_addr s root va ≡ pte2pa (entry s root va) =
            walk_addr-eq pos root va at small ∙ rw e refl in
          ap place to ∙ entry-place root va at small e)
    | inr e ↦ absurd (some (walk_addr-eq pos root va at small ∙ rw e refl))
  ]

-- In a sound forest, two user addresses that `walkAddr` takes to one physical page lie in one page
-- of one address space.
pub walk_addr-isolated :
    (end : ℕ) (s : Memory) (ps : List ℕ) (place : Places) (r₁ v₁ r₂ v₂ : ℕ)
    → Owns end s ps place
    → 0 < end
    → AtLevel 2 (place r₁)
    → AtLevel 2 (place r₂)
    → v₁ < 2 ^ 38
    → v₂ < 2 ^ 38
    → walk_addr s r₁ v₁ ≢ 0
    → walk_addr s r₁ v₁ ≡ walk_addr s r₂ v₂
    → (place r₁ ≡ place r₂) × (v₁ / 4096 ≡ v₂ / 4096)
walk_addr-isolated end s ps place r₁ v₁ r₂ v₂ own pos at₁ at₂ b₁ b₂ some same =
    let p₁ = walk_addr-place end s ps place own pos r₁ v₁ at₁ b₁ some in
    let p₂ = walk_addr-place end s ps place own pos r₂ v₂ at₂ b₂ (λ z. some (same ∙ z)) in
    let codes : page_code place r₁ v₁ ≡ page_code place r₂ v₂ = sym p₁ ∙ ap place same ∙ p₂ in
    omega arith
