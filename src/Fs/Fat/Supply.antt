-- ===== src/Fs/Fat/Supply.antt =====
-- The free clusters of a volume of kernel/fs/fat32/fat32_file_system.cpp.
use startos.Prelude.{
  ℕ, zero, suc, ◌+◌, ◌≤◌, ◌<◌, ◌==◌, leb, if◌then◌else◌, ◌&&◌, true, false, ◌≡◌, inl, inr, refl,
  sym, subst, List, arith, Bool-cases,
}
use startos.Fs.Fat.{Geometry, Disk}
use startos.Fs.Fat.Chain.{entry}
use startos.Fs.Fat.Extend.{Grown}

-- How many of the clusters below a number are free.
abbrev pub free_below : Disk → ℕ → ℕ
free_below d zero = 0
free_below d (suc n) = free_below d n + (if leb 2 n && (entry d n == 0) then 1 else 0)

abbrev pub free_clusters : Geometry → Disk → ℕ
free_clusters g d = free_below d (g.cluster_count + 1)

pub free_below-finds :
    (d : Disk) (n : ℕ) → 1 ≤ free_below d n → (f : ℕ) × (2 ≤ f) × (f < n) × (entry d f ≡ 0)
free_below-finds d zero h = absurd (omega arith)
free_below-finds d (suc n) h = elim (Bool-cases (leb 2 n && (entry d n == 0))) [
  | inl y ↦ (n, ground (arith, y), omega arith, ground (arith, y))
  | inr m ↦
      let (f, lo, hi, free) = free_below-finds d n (ground (arith, h, m)) in
      (f, lo, omega arith, free)
]

module _ (d d' : Disk) (x : ℕ) (low : 2 ≤ x) (free : entry d x ≡ 0)
    (frees : (y : ℕ) → (entry d' y == 0) ≡ (if y == x then false else entry d y == 0)) where
  below_same : (n : ℕ) → n ≤ x → free_below d' n ≡ free_below d n
  below_same zero h = refl
  below_same (suc n) h =
      let same : (entry d' n == 0) ≡ (entry d n == 0) = ground (arith, frees n) in
      rw (same, below_same n (omega arith)) refl

  below_less : (n : ℕ) → x < n → free_below d' n + 1 ≡ free_below d n
  below_less zero h = absurd (omega arith)
  below_less (suc n) h = elim (Bool-cases (n == x)) [
    | inl e ↦
        let last : n ≡ x = ground (arith, e) in
        let gone : (entry d' n == 0) ≡ false = ground (arith, frees n, e) in
        let was : (entry d n == 0) ≡ true =
          ground (arith, subst (λ (y : ℕ). entry d y ≡ 0) (sym last) free) in
        let bound : leb 2 n ≡ true = ground (arith, last) in
        rw (gone, was, bound) (ground (arith, below_same n (omega arith)))
    | inr m ↦
        let same : (entry d' n == 0) ≡ (entry d n == 0) = ground (arith, frees n, m) in
        let before = below_less n (ground (arith, h, m)) in rw same (omega (arith, before))
  ]

-- Taking a cluster leaves one free cluster less.
pub free_clusters-Grown :
    (g : Geometry) (d d' : Disk) (start x : ℕ) (cs : List ℕ)
    → Grown g d start cs x d'
    → free_clusters g d' + 1 ≡ free_clusters g d
free_clusters-Grown g d d' start x cs w =
    below_less d d' x w.valid.0 w.fresh w.frees (g.cluster_count + 1) (omega (arith, w.valid.1))
