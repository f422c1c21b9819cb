-- ===== src/Fs/Fat/Bytes.antt =====
-- The bytes of a file of kernel/fs/fat32/fat32_file_system.cpp, along its chain of clusters.
use startos.Prelude.{
  ℕ, zero, suc, ◌+◌, ◌/◌, ◌%◌, ◌≤◌, ◌<◌, ◌≡◌, refl, sym, ap, subst, ◌∙◌, List, ◌∷◌, ◌++◌, length,
  get_or, take, drop, All, arith,
}
use startos.Fs.Fat.{Geometry, Disk, cluster_at}
use startos.Fs.Fat.Chain.{Fits, content}
use startos.Fs.Fat.File.{bytes_from}

-- The byte of a file at a place, where `cs` are its clusters.
abbrev pub file_byte : Geometry → Disk → List ℕ → ℕ → ℕ
file_byte g d cs o = content g d (get_or cs (o / g.bytes_per_cluster) 0) (o % g.bytes_per_cluster)

pub cluster_size : (g : Geometry) → Fits g → g.bytes_per_cluster ≡ 4096
cluster_size g fits = omega (arith, fits.clusters, fits.eight)

pub bytes_from-eq :
    (f h : ℕ → ℕ) (a b n : ℕ)
    → ((i : ℕ) → i < n → f (a + i) ≡ h (b + i))
    → bytes_from f a n ≡ bytes_from h b n
bytes_from-eq f h a b zero same = refl
bytes_from-eq f h a b (suc n) same =
    let first : f a ≡ h b = ap f (plus_zero a) ∙ same 0 (omega arith) ∙ ap h (sym (plus_zero b)) in
    rw first (
      ap (λ (t : List ℕ). h b ∷ t)
        (bytes_from-eq f h (a + 1) (b + 1) n
          (λ i l. ap f (plus_suc a i) ∙ same (suc i) (omega arith) ∙ ap h (sym (plus_suc b i)))))
  where
    plus_zero : (a : ℕ) → a ≡ a + 0
    plus_zero a = omega arith

    plus_suc : (a i : ℕ) → a + 1 + i ≡ a + suc i
    plus_suc a i = omega arith

pub length-bytes_from : (f : ℕ → ℕ) (a n : ℕ) → length (bytes_from f a n) ≡ n
length-bytes_from f a zero = refl
length-bytes_from f a (suc n) = ap suc (length-bytes_from f (a + 1) n)

pub All-bytes_from :
    (P : ℕ → Type 0) (f : ℕ → ℕ) (a n : ℕ) → ((i : ℕ) → P (f i)) → All P (bytes_from f a n)
All-bytes_from P f a zero h = tt
All-bytes_from P f a (suc n) h = (h a, All-bytes_from P f (a + 1) n h)

pub get_or-bytes_from : (f : ℕ → ℕ) (a n i : ℕ) → i < n → get_or (bytes_from f a n) i 0 ≡ f (a + i)
get_or-bytes_from f a zero i h = absurd (omega arith)
get_or-bytes_from f a (suc n) zero h = ap f (omega arith)
get_or-bytes_from f a (suc n) (suc i) h =
    get_or-bytes_from f (a + 1) n i (omega arith) ∙ ap f (omega arith)

pub take-bytes_from : (f : ℕ → ℕ) (a n k : ℕ) → take n (bytes_from f a (n + k)) ≡ bytes_from f a n
take-bytes_from f a zero k = refl
take-bytes_from f a (suc n) k =
    let more : suc n + k ≡ suc (n + k) = omega arith in
    rw more (ap (λ (t : List ℕ). f a ∷ t) (take-bytes_from f (a + 1) n k))

pub drop-bytes_from :
    (f : ℕ → ℕ) (a n k : ℕ) → drop n (bytes_from f a (n + k)) ≡ bytes_from f (a + n) k
drop-bytes_from f a zero k =
    bytes_from-eq f f a (a + 0) (0 + k) (λ i h. ap f (omega arith))
    ∙ ap (λ (m : ℕ). bytes_from f (a + 0) m) (omega arith)
drop-bytes_from f a (suc n) k =
    let more : suc n + k ≡ suc (n + k) = omega arith in
    let there : a + suc n ≡ a + 1 + n = omega arith in
    rw (more, there) (drop-bytes_from f (a + 1) n k)

-- Two stretches, one behind the other.
pub bytes_from-append :
    (f : ℕ → ℕ) (a n k : ℕ) → bytes_from f a (n + k) ≡ bytes_from f a n ++ bytes_from f (a + n) k
bytes_from-append f a zero k =
    let none : 0 + k ≡ k = omega arith in let here : a + 0 ≡ a = omega arith in rw (none, here) refl
bytes_from-append f a (suc n) k =
    let more : suc n + k ≡ suc (n + k) = omega arith in
    let there : a + suc n ≡ a + 1 + n = omega arith in
    rw (more, there) (ap (λ (t : List ℕ). f a ∷ t) (bytes_from-append f (a + 1) n k))

-- A stretch of a file that lies in one cluster is a stretch of the device.
pub stretch_on_device :
    (g : Geometry) (fits : Fits g) (d : Disk) (cs : List ℕ) (o n : ℕ)
    → o % g.bytes_per_cluster + n ≤ g.bytes_per_cluster
    → bytes_from d.device
        (cluster_at g (get_or cs (o / g.bytes_per_cluster) 0) + o % g.bytes_per_cluster)
        n
      ≡ bytes_from (file_byte g d cs) o n
stretch_on_device g fits d cs o n h =
    let size = cluster_size g fits in
    let in_cluster : o % 4096 + n ≤ 4096 =
      omega (arith, size, subst (λ (s : ℕ). o % s + n ≤ s) size h) in
    bytes_from-eq d.device (file_byte g d cs)
      (cluster_at g (get_or cs (o / g.bytes_per_cluster) 0) + o % g.bytes_per_cluster) o n
      (λ i l.
        let block : (o + i) / 4096 ≡ o / 4096 = omega arith in
        let place : (o + i) % 4096 ≡ o % 4096 + i = omega arith in
        rw (size, block, place) (ap d.device (omega arith)))
