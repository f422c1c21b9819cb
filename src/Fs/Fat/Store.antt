-- ===== src/Fs/Fat/Store.antt =====
-- A round of `WriteInode` of kernel/fs/fat32/fat32_file_system.cpp: bytes come to one cluster.
use startos.Prelude.{
  ℕ, ◌+◌, ◌-◌, ◌*◌, ◌/◌, ◌%◌, ◌≤◌, ◌<◌, ltb, leb, ◌&&◌, true, ◌≡◌, ◌≢◌, ◌⊎◌, inl, inr, refl, sym,
  subst, ap, ◌∙◌, List, count, length, get_or, arith, Bool-cases,
}
use startos.Fs.Fat.{Geometry, Disk, cluster_at}
use startos.Fs.Fat.Chain.{Fits, cluster-apart}
use startos.Fs.Fat.Links.{Linked, Linked-Valid}
use startos.Fs.Fat.Extend.{count-get_or}
use startos.Fs.Fat.File.{bytes_from, put_device}
use startos.Fs.Fat.Bytes.{cluster_size, length-bytes_from, get_or-bytes_from}
use startos.Fs.Fat.Written.{Apart, byte_after, Written, Linked-places}

abbrev pub stored : Disk → ℕ → List ℕ → Disk
stored d a bs = record d { device = put_device d.device a bs }

pub put_device-outside :
    (device : ℕ → ℕ) (a x : ℕ) (bs : List ℕ)
    → (x < a) ⊎ (a + length bs ≤ x)
    → put_device device a bs x ≡ device x
put_device-outside device a x bs out = ground arith

pub put_device-at :
    (device : ℕ → ℕ) (a i : ℕ) (bs : List ℕ)
    → i < length bs
    → put_device device a bs (a + i) ≡ get_or bs i 0
put_device-at device a i bs h =
    let inside : leb a (a + i) && ltb (a + i) (a + length bs) ≡ true = ground arith in
    let place : a + i - a ≡ i = omega arith in rw (inside, place) refl

pub put_device-inside :
    (device src : ℕ → ℕ) (a t len i : ℕ)
    → i < len
    → put_device device a (bytes_from src t len) (a + i) ≡ src (t + i)
put_device-inside device src a t len i h =
    put_device-at device a i (bytes_from src t len) (omega (arith, length-bytes_from src t len))
    ∙ get_or-bytes_from src t len i h

-- Where a byte of a file stands on the device.
abbrev pub spot : Geometry → List ℕ → ℕ → ℕ
spot g cs o = cluster_at g (get_or cs (o / g.bytes_per_cluster) 0) + o % g.bytes_per_cluster

module _ (g : Geometry) (fits : Fits g) where
  -- Two places of a file have different bytes of the device.
  spot-apart :
      (d : Disk) (c : ℕ) (cs : List ℕ) (o p : ℕ)
      → Linked g d c cs
      → o < length cs * 4096
      → p < length cs * 4096
      → spot g cs o ≡ spot g cs p
      → o ≡ p
  spot-apart d c cs o p l ho hp e =
      let size = cluster_size g fits in
      let io : o / g.bytes_per_cluster < length cs = rw size (omega arith) in
      let ip : p / g.bytes_per_cluster < length cs = rw size (omega arith) in
      let low_o : o % g.bytes_per_cluster < g.bytes_per_cluster = rw size (omega arith) in
      let low_p : p % g.bytes_per_cluster < g.bytes_per_cluster = rw size (omega arith) in
      let cluster =
        cluster-apart g fits (get_or cs (o / g.bytes_per_cluster) 0)
          (get_or cs (p / g.bytes_per_cluster) 0) (o % g.bytes_per_cluster)
          (p % g.bytes_per_cluster) (Linked-Valid g fits d c cs (o / g.bytes_per_cluster) l io)
          (Linked-Valid g fits d c cs (p / g.bytes_per_cluster) l ip) low_o low_p e in
      let block =
        Linked-places g fits d c cs (o / g.bytes_per_cluster) (p / g.bytes_per_cluster) l io ip
          cluster in
      let inner : o % g.bytes_per_cluster ≡ p % g.bytes_per_cluster =
        omega (arith, e, ap (λ (z : ℕ). cluster_at g z) cluster) in
      let block' : o / 4096 ≡ p / 4096 = subst (λ (z : ℕ). o / z ≡ p / z) size block in
      let inner' : o % 4096 ≡ p % 4096 = subst (λ (z : ℕ). o % z ≡ p % z) size inner in omega arith

  -- Two files that share no cluster have different bytes of the device.
  pub spot-other :
      (d : Disk) (c e : ℕ) (cs ds : List ℕ) (o p : ℕ)
      → Linked g d c cs
      → Linked g d e ds
      → Apart cs ds
      → o < length cs * 4096
      → p < length ds * 4096
      → spot g cs o ≢ spot g ds p
  spot-other d c e cs ds o p l m a ho hp s =
      let size = cluster_size g fits in
      let io : o / g.bytes_per_cluster < length cs = rw size (omega arith) in
      let ip : p / g.bytes_per_cluster < length ds = rw size (omega arith) in
      let low_o : o % g.bytes_per_cluster < g.bytes_per_cluster = rw size (omega arith) in
      let low_p : p % g.bytes_per_cluster < g.bytes_per_cluster = rw size (omega arith) in
      let x = get_or cs (o / g.bytes_per_cluster) 0 in
      let y = get_or ds (p / g.bytes_per_cluster) 0 in
      let same =
        cluster-apart g fits x y (o % g.bytes_per_cluster) (p % g.bytes_per_cluster)
          (Linked-Valid g fits d c cs (o / g.bytes_per_cluster) l io)
          (Linked-Valid g fits d e ds (p / g.bytes_per_cluster) m ip) low_o low_p s in
      let none = a x (count-get_or cs (o / g.bytes_per_cluster) io) in
      let here = count-get_or ds (p / g.bytes_per_cluster) ip in
      omega (arith, none, here, ap (λ (z : ℕ). count z ds) same)

  -- The bytes of a stretch that lies in one cluster stand one behind the other.
  spot-next :
      (cs : List ℕ) (o len i : ℕ)
      → o % g.bytes_per_cluster + len ≤ g.bytes_per_cluster
      → i < len
      → spot g cs (o + i) ≡ spot g cs o + i
  spot-next cs o len i h l =
      let size = cluster_size g fits in
      let h' : o % 4096 + len ≤ 4096 = subst (λ (z : ℕ). o % z + len ≤ z) size h in
      let block : (o + i) / 4096 ≡ o / 4096 = omega arith in
      let place : (o + i) % 4096 ≡ o % 4096 + i = omega arith in
      rw (size, block, place) (omega arith)

  -- A byte of the device that the stretch from `o` on does not hold.
  pub spot-outside :
      (cs : List ℕ) (o len x : ℕ)
      → o % g.bytes_per_cluster + len ≤ g.bytes_per_cluster
      → ((i : ℕ) → i < len → spot g cs (o + i) ≢ x)
      → (x < spot g cs o) ⊎ (spot g cs o + len ≤ x)
  spot-outside cs o len x h none = elim (Bool-cases (ltb x (spot g cs o))) [
    | inl y ↦ inl (ground (arith, y))
    | inr n ↦ elim (Bool-cases (ltb x (spot g cs o + len))) [
      | inr m ↦ inr (ground (arith, m))
      | inl y ↦
          let le : spot g cs o ≤ x = ground (arith, n) in
          let lt : x < spot g cs o + len = ground (arith, y) in
          absurd (
            none (x - spot g cs o) (omega arith)
              (spot-next cs o len (x - spot g cs o) h (omega arith) ∙ omega arith))
    ]
  ]

  module _ (d : Disk) (start : ℕ) (cs : List ℕ) (off : ℕ) (src : ℕ → ℕ) where
    pub Written-store :
        (t len o : ℕ) (d1 : Disk) (cs1 : List ℕ)
        → o ≡ off + t
        → o % g.bytes_per_cluster + len ≤ g.bytes_per_cluster
        → o + len ≤ length cs1 * 4096
        → Written g d start cs off src t d1 cs1
        → Written g d start cs off src
            (t + len)
            (stored d1 (spot g cs1 o) (bytes_from src t len))
            cs1
    Written-store t len o d1 cs1 eo within fit w =
        let count_new = length-bytes_from src t len in
        record {
          chain = w.chain;
          longer = w.longer;
          extends = w.extends;
          bytes = λ p reach h. elim (Bool-cases (leb o p && ltb p (o + len))) [
            | inl y ↦
                let from_o : o ≤ p = ground (arith, y) in
                let below : p < o + len = ground (arith, y) in
                let there : spot g cs1 p ≡ spot g cs1 o + (p - o) =
                  ap (λ (z : ℕ). spot g cs1 z) (omega arith)
                  ∙ spot-next cs1 o len (p - o) within (omega arith) in
                let new : byte_after g d cs off src (t + len) p ≡ src (p - off) = ground arith in
                ap (λ (z : ℕ). put_device d1.device (spot g cs1 o) (bytes_from src t len) z) there
                ∙ put_device-inside d1.device src (spot g cs1 o) t len (p - o) (omega arith)
                ∙ ap src (omega arith)
                ∙ sym new
            | inr n ↦
                let old : byte_after g d cs off src (t + len) p ≡ byte_after g d cs off src t p =
                  ground (arith, n) in
                put_device-outside d1.device (spot g cs1 o) (spot g cs1 p) (bytes_from src t len) (
                  subst
                    (λ (z : ℕ). (spot g cs1 p < spot g cs1 o) ⊎ (spot g cs1 o + z ≤ spot g cs1 p))
                    (sym count_new)
                    (spot-outside cs1 o len (spot g cs1 p) within (λ i l s.
                      let same = spot-apart d1 start cs1 (o + i) p w.chain (omega arith) h s in
                      ground (arith, n, same))))
                ∙ w.bytes p (ground (arith, n, reach)) h
                ∙ sym old
          ];
          apart = w.apart;
          linked = w.linked;
          others = λ c ds p l a h.
              put_device-outside d1.device (spot g cs1 o) (spot g ds p) (bytes_from src t len) (
                subst (λ (z : ℕ). (spot g ds p < spot g cs1 o) ⊎ (spot g cs1 o + z ≤ spot g ds p))
                  (sym count_new)
                  (spot-outside cs1 o len (spot g ds p) within (λ i lt.
                    spot-other d1 start c cs1 ds (o + i) p w.chain (w.linked c ds l a)
                      (w.apart c ds l a) (omega arith) h)))
              ∙ w.others c ds p l a h;
          supply = w.supply;
        }
