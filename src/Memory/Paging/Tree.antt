-- ===== src/Memory/Paging/Tree.antt =====
-- The page tables of kernel/memory/VmManager.cpp as one forest. Each page in use has a code: an address
-- space's root has its number, from 1 to 511, and the page behind entry `i` of the page coded `c` has
-- the code `c * 512 + i`. So a page's code says where in which address space it stands.
use startos.Prelude.{
  ℕ, zero, suc, ◌+◌, ◌*◌, ◌/◌, ◌^◌, ◌≤◌, ◌<◌, true, false, ◌≡◌, ap, refl, List, count, arith,
}
use startos.Memory.{Words}
use startos.Memory.Pages.{Memory}
use startos.Memory.Pages.Invariant.{IsPage, Holds}
use startos.Memory.Paging.{pte_v, pte_u, has, pte2pa, px, slot}

-- The entry that a walk from `level` down comes to; 0, an invalid entry, when a table is missing.
unfoldable pub look : ℕ → Words → ℕ → ℕ → ℕ
look zero w t va = w (slot 0 t va)
look (suc l) w t va =
    let pte = w (slot (suc l) t va) in
    elim (has pte_v pte) [ true ↦ look l w (pte2pa pte) va | false ↦ 0 ]

-- The entry for `va` in the address space at `root`.
abbrev pub entry : Memory → ℕ → ℕ → ℕ
entry s root va = look 2 s.words root va

-- `c` is the code of a table of the level.
abbrev pub AtLevel : ℕ → ℕ → Type 0
AtLevel zero c = (2 ^ 18 ≤ c) × (c < 2 ^ 27)
AtLevel (suc zero) c = (2 ^ 9 ≤ c) × (c < 2 ^ 18)
AtLevel (suc (suc l)) c = (1 ≤ c) × (c < 2 ^ 9) × (l ≡ 0)

-- The pages of a forest, by code; the code 0 is for every other page.
abbrev pub Places : Type 0
Places = ℕ → ℕ

-- The forest, with the free pages `ps`: what has a code is a page that is not free; an entry of a
-- table leads to the page with its code, and so does an entry that the user may use.
pub record Owns (end : ℕ) (s : Memory) (ps : List ℕ) (place : Places) : Type 0 where
  pub holds : Holds end s ps
  pub pages : (t : ℕ) → 1 ≤ place t → IsPage end t
  pub in_use : (t : ℕ) → 1 ≤ place t → count t ps ≡ 0
  pub links :
      (t i : ℕ)
      → 1 ≤ place t
      → place t < 2 ^ 18
      → i < 512
      → has pte_v (s.words (t + 8 * i)) ≡ true
      → place (pte2pa (s.words (t + 8 * i))) ≡ place t * 512 + i
  pub leaves :
      (t i : ℕ)
      → 2 ^ 18 ≤ place t
      → place t < 2 ^ 27
      → i < 512
      → has pte_v (s.words (t + 8 * i)) ≡ true
      → has pte_u (s.words (t + 8 * i)) ≡ true
      → place (pte2pa (s.words (t + 8 * i))) ≡ place t * 512 + i

pub AtLevel-child : (l c i : ℕ) → AtLevel (suc l) c → i < 512 → AtLevel l (c * 512 + i)
AtLevel-child zero c i h k = omega arith
AtLevel-child (suc zero) c i h k = omega arith
AtLevel-child (suc (suc l)) c i h k = omega arith

pub AtLevel-inner : (l c : ℕ) → AtLevel (suc l) c → (1 ≤ c) × (c < 2 ^ 18)
AtLevel-inner zero c h = omega arith
AtLevel-inner (suc l) c h = omega arith

pub AtLevel-some : (l c : ℕ) → AtLevel l c → 1 ≤ c
AtLevel-some zero c h = omega arith
AtLevel-some (suc l) c h = (AtLevel-inner l c h).0

pub px-lt : (l va : ℕ) → px l va < 512
px-lt l va = omega arith

-- The code of the entry for `va` below a table of code `c`.
abbrev pub code : ℕ → ℕ → ℕ → ℕ
code zero c va = c * 512 + px 0 va
code (suc l) c va = code l (c * 512 + px (suc l) va) va

-- It is the number of the space followed by the number of the page.
pub code-eq : (k va : ℕ) → va < 2 ^ 38 → code 2 k va ≡ k * 2 ^ 27 + va / 4096
code-eq k va h = omega arith

-- The next table of a walk is where its code says.
pub next_table :
    (end l : ℕ) (s : Memory) (ps : List ℕ) (place : Places) (t va : ℕ)
    → Owns end s ps place
    → AtLevel (suc l) (place t)
    → has pte_v (s.words (slot (suc l) t va)) ≡ true
    → place (pte2pa (s.words (slot (suc l) t va))) ≡ place t * 512 + px (suc l) va
next_table end l s ps place t va own at valid =
    let inner = AtLevel-inner l (place t) at in
    own.links t (px (suc l) va) inner.0 inner.1 (px-lt (suc l) va) valid

pub next-AtLevel :
    (end l : ℕ) (s : Memory) (ps : List ℕ) (place : Places) (t va : ℕ)
    → Owns end s ps place
    → AtLevel (suc l) (place t)
    → has pte_v (s.words (slot (suc l) t va)) ≡ true
    → AtLevel l (place (pte2pa (s.words (slot (suc l) t va))))
next-AtLevel end l s ps place t va own at valid =
    rw (next_table end l s ps place t va own at valid)
      (AtLevel-child l (place t) (px (suc l) va) at (px-lt (suc l) va))

pub look-valid :
    (l : ℕ) (w : Words) (t va pte : ℕ)
    → w (slot (suc l) t va) ≡ pte
    → has pte_v pte ≡ true
    → look (suc l) w t va ≡ look l w (pte2pa pte) va
unfolding look
look-valid l w t va pte e h = rw (look, e, h) (ap (λ (p : ℕ). look l w (pte2pa p) va) e)

pub look-invalid :
    (l : ℕ) (w : Words) (t va : ℕ)
    → has pte_v (w (slot (suc l) t va)) ≡ false
    → look (suc l) w t va ≡ 0
unfolding look
look-invalid l w t va h = rw (look, h) refl
