-- ===== src/Fs/Fat/Written.antt =====
-- What a write of kernel/fs/fat32/fat32_file_system.cpp does to the files of a volume, step by step.
use startos.Prelude.{
  ℕ, zero, suc, ◌+◌, ◌-◌, ◌*◌, ◌/◌, ◌%◌, ◌≤◌, ◌<◌, ◌==◌, ltb, leb, if◌then◌else◌, ◌&&◌, ◌≡◌, ◌⊎◌,
  inl, inr, refl, sym, subst, ap, ◌∙◌, List, [], ◌∷◌, ◌++◌, count, length, length-append, get_or,
  append-nil, append_assoc, max, arith, Bool-cases,
}
use startos.Fs.Fat.{Geometry, Disk}
use startos.Fs.Fat.Chain.{Fits, entry, content}
use startos.Fs.Fat.Links.{Linked, Linked-used, Linked-once}
use startos.Fs.Fat.Extend.{Grown, count-get_or}
use startos.Fs.Fat.Bytes.{file_byte, cluster_size}
use startos.Fs.Fat.Supply.{free_clusters, free_clusters-Grown}

-- Two files share no cluster.
abbrev pub Apart : List ℕ → List ℕ → Type 0
Apart cs ds = (y : ℕ) → 1 ≤ count y cs → count y ds ≡ 0

-- The byte of a file after the first `t` bytes of `src` came to it from the place `off` on.
abbrev pub byte_after : Geometry → Disk → List ℕ → ℕ → (ℕ → ℕ) → ℕ → ℕ → ℕ
byte_after g d cs off src t o =
    if leb off o && ltb o (off + t) then src (o - off) else file_byte g d cs o

-- `d'` is `d` after the first `t` bytes of `src` came to the file with the chain `cs` from `start` on,
-- which has the chain `cs'` now, the old one with clusters behind it; the files that share no cluster
-- with it have their bytes. Of the new clusters only the bytes that were written are stated.
pub record Written (g : Geometry) (d : Disk) (start : ℕ) (cs : List ℕ) (off : ℕ) (src : ℕ → ℕ)
    (t : ℕ) (d' : Disk) (cs' : List ℕ) : Type 0 where
  pub chain : Linked g d' start cs'
  pub longer : length cs ≤ length cs'
  pub extends : (added : List ℕ) × (cs' ≡ cs ++ added)
  pub bytes :
      (o : ℕ)
      → o < max (length cs * 4096) (off + t)
      → o < length cs' * 4096
      → file_byte g d' cs' o ≡ byte_after g d cs off src t o
  pub apart : (c : ℕ) (ds : List ℕ) → Linked g d c ds → Apart cs ds → Apart cs' ds
  pub linked : (c : ℕ) (ds : List ℕ) → Linked g d c ds → Apart cs ds → Linked g d' c ds
  pub others :
      (c : ℕ) (ds : List ℕ) (o : ℕ)
      → Linked g d c ds
      → Apart cs ds
      → o < length ds * 4096
      → file_byte g d' ds o ≡ file_byte g d ds o
  pub supply : free_clusters g d' + length cs' ≡ free_clusters g d + length cs

get_or-front : (xs ys : List ℕ) (i : ℕ) → i < length xs → get_or (xs ++ ys) i 0 ≡ get_or xs i 0
get_or-front [] ys i h = absurd (omega arith)
get_or-front (x ∷ xs) ys zero h = refl
get_or-front (x ∷ xs) ys (suc i) h = get_or-front xs ys i (omega arith)

pub get_or-last : (xs : List ℕ) (x i : ℕ) → i ≡ length xs → get_or (xs ++ x ∷ []) i 0 ≡ x
get_or-last [] x zero h = refl
get_or-last [] x (suc i) h = absurd (omega arith)
get_or-last (y ∷ ys) x zero h = absurd (omega arith)
get_or-last (y ∷ ys) x (suc i) h = get_or-last ys x i (omega arith)

count-append : (y x : ℕ) (xs : List ℕ) → 1 ≤ count y (xs ++ x ∷ []) → (y ≡ x) ⊎ (1 ≤ count y xs)
count-append y x [] h = inl (ground (arith, h))
count-append y x (z ∷ zs) h = elim (Bool-cases (y == z)) [
  | inl e ↦ inr (ground (arith, e))
  | inr n ↦ elim (count-append y x zs (ground (arith, h, n))) [
    | inl same ↦ inl same
    | inr more ↦ inr (ground (arith, more))
  ]
]

module _ (g : Geometry) (fits : Fits g) where
  -- A chain comes to a cluster at one place only.
  pub Linked-places :
      (d : Disk) (c : ℕ) (cs : List ℕ) (i j : ℕ)
      → Linked g d c cs
      → i < length cs
      → j < length cs
      → get_or cs i 0 ≡ get_or cs j 0
      → i ≡ j
  Linked-places d c [] i j l hi hj e = absurd (omega arith)
  Linked-places d c (x ∷ xs) zero zero l hi hj e = refl
  Linked-places d c (x ∷ xs) zero (suc j) l hi hj e =
      let once = Linked-once g fits d c x xs l in
      absurd (
        omega (
          arith,
          once,
          subst (λ (y : ℕ). 1 ≤ count y xs) (sym e) (count-get_or xs j (omega arith)),
        ))
  Linked-places d c (x ∷ xs) (suc i) zero l hi hj e =
      let once = Linked-once g fits d c x xs l in
      absurd
        (omega (arith, once, subst (λ (y : ℕ). 1 ≤ count y xs) e (count-get_or xs i (omega arith))))
  Linked-places d c (x ∷ xs) (suc i) (suc j) (h, v, l) hi hj e =
      ap suc (Linked-places d (entry d x) xs i j l (omega arith) (omega arith) e)

  module _ (d : Disk) (start : ℕ) (cs : List ℕ) (off : ℕ) (src : ℕ → ℕ) where
    pub Written-none : Linked g d start cs → Written g d start cs off src 0 d cs
    Written-none l = record {
      chain = l;
      longer = omega arith;
      extends = ([], sym (append-nil cs));
      bytes = λ o within h. ground arith;
      apart = λ c ds m a. a;
      linked = λ c ds m a. m;
      others = λ c ds o m a h. refl;
      supply = refl;
    }

    -- Bytes of clusters other than the new one stay.
    byte_kept :
        (d1 d2 : Disk) (s x c : ℕ) (cs1 ds : List ℕ) (o : ℕ)
        → Grown g d1 s cs1 x d2
        → Linked g d1 c ds
        → o < length ds * 4096
        → file_byte g d2 ds o ≡ file_byte g d1 ds o
    byte_kept d1 d2 s x c cs1 ds o w l h =
        let size = cluster_size g fits in
        let inside : o / g.bytes_per_cluster < length ds = rw size (omega arith) in
        let y = get_or ds (o / g.bytes_per_cluster) 0 in
        let (_, valid, used) =
          Linked-used g fits d1 c ds l y (count-get_or ds (o / g.bytes_per_cluster) inside) in
        w.kept y (o % g.bytes_per_cluster) valid
          (λ e. omega (arith, used, ap (λ (z : ℕ). entry d1 z) e ∙ w.fresh)) (rw size (omega arith))

    pub Written-grow :
        (t : ℕ) (d1 d2 : Disk) (cs1 : List ℕ) (x : ℕ)
        → off + t ≤ length cs1 * 4096
        → Written g d start cs off src t d1 cs1
        → Grown g d1 start cs1 x d2
        → Written g d start cs off src t d2 (cs1 ++ x ∷ [])
    Written-grow t d1 d2 cs1 x fit w n =
        let size = cluster_size g fits in
        let more = length-append cs1 (x ∷ []) in
        record {
          chain = n.chain;
          longer = omega (arith, w.longer, more);
          extends =
              let (added, e) = w.extends in
              (
                added ++ x ∷ [],
                ap (λ (l : List ℕ). l ++ x ∷ []) e ∙ append_assoc cs added (x ∷ []),
              );
          bytes = λ o within h. elim (Bool-cases (ltb o (length cs1 * 4096))) [
            | inl y ↦
                let old : o < length cs1 * 4096 = ground (arith, y) in
                let block : o / g.bytes_per_cluster < length cs1 = rw size (omega arith) in
                let front = get_or-front cs1 (x ∷ []) (o / g.bytes_per_cluster) block in
                ap (λ (z : ℕ). content g d2 z (o % g.bytes_per_cluster)) front
                ∙ byte_kept d1 d2 start x start cs1 cs1 o n w.chain old
                ∙ w.bytes o within old
            | inr m ↦
                let past : length cs1 * 4096 ≤ o = ground (arith, m) in
                absurd (ground (arith, within, w.longer, fit, past))
          ];
          apart = λ c ds l a y h. elim (count-append y x cs1 h) [
            | inr old ↦ w.apart c ds l a y old
            | inl same ↦ elim (Bool-cases (count y ds == 0)) [
              | inl z ↦ ground (arith, z)
              | inr u ↦
                  let (_, _, used) =
                    Linked-used g fits d1 c ds (w.linked c ds l a) y (ground (arith, u)) in
                  absurd (omega (arith, used, ap (λ (z : ℕ). entry d1 z) same ∙ n.fresh))
            ]
          ];
          linked = λ c ds l a. n.others c ds (w.linked c ds l a) (w.apart c ds l a);
          others = λ c ds o l a h.
              byte_kept d1 d2 start x c cs1 ds o n (w.linked c ds l a) h ∙ w.others c ds o l a h;
          supply = omega (arith, w.supply, more, free_clusters-Grown g d1 d2 start x cs1 n);
        }
