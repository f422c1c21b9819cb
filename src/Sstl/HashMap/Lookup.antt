-- ===== src/Sstl/HashMap/Lookup.antt =====
-- `put`, `get` and `poll` of sstl/map.hpp against a finite map from keys to addresses.
use startos.Prelude.{
  ℕ, suc, ◌^◌, ◌≤◌, ◌<◌, ◌==◌, if◌then◌else◌, ◌≡◌, refl, ◌∙◌, sym, ap, Bool, true, false, ◌||◌,
  List, [], ◌∷◌, none, some, set, arith, length, All, length-set, length-replicate, get_or-set_self,
  get_or-set_ne, get_or-replicate, Bool-cases, inl, inr,
}
use startos.Prelude.Run.{Run, ok, panic, ◌>>=◌}
use native.Mathlib.Nat.{pow-suc}
use startos.Sstl.HashMap.Hash.{slot, hash-eq-ok, slot-lt-half}
use startos.Sstl.HashMap.{
  Node, Chain, Map, empty_map, hash, bucket, find, put_at, put, value_in, get,
}

-- Whether a chain, or a map, has a node with the key.
unfoldable pub has : ℕ → Chain → Bool
has key [] = false
has key (n ∷ c) = n.key == key || has key c

unfoldable pub contains : Map → ℕ → Bool
contains m key = has key (bucket m (slot m key))

abbrev pub Distinct : Chain → Type 0
Distinct [] = Unit
Distinct (n ∷ c) = (has n.key c ≡ false) × Distinct c

-- Every node of the chain hashes to `h`.
abbrev pub Placed : Map → ℕ → Chain → Type 0
Placed m h c = All (λ n. slot m n.key ≡ h) c

-- The order is one that `hash` is defined for, the table has a bucket for every hash, a node stands in
-- the bucket of its hash, and no chain has a key twice.
pub record IsMap (m : Map) : Type 0 where
  pub order_from : 2 ≤ m.bits
  pub order_to : m.bits ≤ 65
  pub covers : (key : ℕ) → slot m key < length m.hashtable
  pub distinct : (h : ℕ) → Distinct (bucket m h)
  pub placed : (h : ℕ) → Placed m h (bucket m h)

find-has : (key : ℕ) (c : Chain) → has key c ≡ false → find key c ≡ none
unfolding find has
find-has key [] h = refl
find-has key (n ∷ c) h = ground (arith, find-has key c)

has-find : (key : ℕ) (c : Chain) → has key c ≡ true → (n : Node) × (find key c ≡ some n)
unfolding find has
has-find key [] h = cc
has-find key (n ∷ c) h = elim (Bool-cases (n.key == key)) [
  | inl e ↦ (n, rw e)
  | inr e ↦ rw e (has-find key c (rw e at h))
]

-- What a search finds in a chain, as an address.
unfoldable pub found : ℕ → Chain → ℕ
found key c = elim (find key c) [ none ↦ 0 | some n ↦ n.val ]

-- A bucket of the table after one bucket is replaced.
bucket-set :
    (m : Map) (h h' : ℕ) (c : Chain)
    → h < length m.hashtable
    → bucket (record m { hashtable = set m.hashtable h c }) h'
      ≡ (if h == h' then c else bucket m h')
unfolding bucket
bucket-set m h h' c lt = elim (Bool-cases (h == h')) [
  | inl e ↦
      rw e (let same : h ≡ h' = ground arith in rw (← same) (get_or-set_self m.hashtable h c [] lt))
  | inr e ↦ rw e (get_or-set_ne m.hashtable h h' c [] (ground arith))
]

slot-rebuilt : (m : Map) (t : List Chain) (j : ℕ) → slot (record m { hashtable = t }) j ≡ slot m j
unfolding slot
slot-rebuilt m t j = refl

-- A map whose bucket `h` is replaced by `c`: the chain that a key's search meets.
pub replaced-bucket :
    (m : Map) (h j : ℕ) (c : Chain)
    → h < length m.hashtable
    → let m' : Map = record m { hashtable = set m.hashtable h c } in
      bucket m' (slot m' j) ≡ (if h == slot m j then c else bucket m (slot m j))
replaced-bucket m h j c lt =
    rw (slot-rebuilt m (set m.hashtable h c) j) (bucket-set m h (slot m j) c lt)

Placed-rebuilt :
    (m : Map) (t : List Chain) (h : ℕ) (c : Chain)
    → Placed m h c
    → Placed (record m { hashtable = t }) h c
Placed-rebuilt m t h [] q = tt
Placed-rebuilt m t h (n ∷ c) q = (slot-rebuilt m t n.key ∙ q.0, Placed-rebuilt m t h c q.1)

-- Replacing one chain by a chain without duplicates keeps the table well formed.
pub replaced-IsMap :
    (m : Map) (h : ℕ) (c : Chain)
    → IsMap m
    → h < length m.hashtable
    → Distinct c
    → Placed m h c
    → IsMap (record m { hashtable = set m.hashtable h c })
replaced-IsMap m h c v lt d p = record {
  order_from = v.order_from;
  order_to = v.order_to;
  covers = λ key.
      rw (slot-rebuilt m (set m.hashtable h c) key, length-set m.hashtable h c) (v.covers key);
  distinct = λ h'. rw (bucket-set m h h' c lt) (pick h');
  placed =
      λ h'. Placed-rebuilt m (set m.hashtable h c) h' _ (rw (bucket-set m h h' c lt) (choose h'));
}
  where
    pick : (h' : ℕ) → Distinct (if h == h' then c else bucket m h')
    pick h' = elim (Bool-cases (h == h')) [ inl e ↦ rw e d | inr e ↦ rw e (v.distinct h') ]

    choose : (h' : ℕ) → Placed m h' (if h == h' then c else bucket m h')
    choose h' = elim (Bool-cases (h == h')) [
      | inl e ↦ rw e (let same : h ≡ h' = ground arith in rw (← same) p)
      | inr e ↦ rw e (v.placed h')
    ]

pub hash-IsMap : (m : Map) (key : ℕ) → IsMap m → hash m key ≡ ok (slot m key)
hash-IsMap m key v = hash-eq-ok m key v.order_from v.order_to

-- What a key finds.
unfoldable pub look : Map → ℕ → ℕ
look m key = value_in key (bucket m (slot m key))

pub get-IsMap : (m : Map) (key : ℕ) → IsMap m → get m key ≡ ok (look m key)
unfolding get look
get-IsMap m key v = rw (get, hash-IsMap m key v, ◌>>=◌) refl

-- `put` of a key that the map holds stops the kernel.
pub put_duplicate :
    (m : Map) (key val : ℕ) → IsMap m → contains m key ≡ true → put m key val ≡ panic
unfolding put put_at contains
put_duplicate m key val v h =
    let (n, e) = has-find key (bucket m (slot m key)) h in
    rw (put, hash-IsMap m key v, ◌>>=◌, put_at, e) refl

-- The map after `put` of a new key.
unfoldable pub put_into : Map → ℕ → ℕ → Map
put_into m key val = record m {
  hashtable =
      set m.hashtable (slot m key) (record { key = key; val = val } ∷ bucket m (slot m key));
}

pub put-eq-ok :
    (m : Map) (key val : ℕ)
    → IsMap m
    → contains m key ≡ false
    → put m key val ≡ ok (put_into m key val)
unfolding put put_at contains put_into
put-eq-ok m key val v h =
    rw (put, hash-IsMap m key v, ◌>>=◌, put_at, find-has key (bucket m (slot m key)) h) refl

pub put_into-IsMap :
    (m : Map) (key val : ℕ) → IsMap m → contains m key ≡ false → IsMap (put_into m key val)
unfolding put_into contains
put_into-IsMap m key val v new =
    replaced-IsMap m (slot m key) _ v (v.covers key) (new, v.distinct (slot m key))
      (refl, v.placed (slot m key))

pub look-eq-found : (m : Map) (key : ℕ) → look m key ≡ found key (bucket m (slot m key))
unfolding look value_in found
look-eq-found m key = refl

-- What a key's search finds after bucket `h` is replaced by `c`.
pub look-replaced :
    (m : Map) (h j : ℕ) (c : Chain)
    → h < length m.hashtable
    → look (record m { hashtable = set m.hashtable h c }) j
      ≡ (if h == slot m j then found j c else look m j)
look-replaced m h j c lt =
    rw
      (
        look-eq-found (record m { hashtable = set m.hashtable h c }) j,
        replaced-bucket m h j c lt,
        look-eq-found m j,
      )
      (elim (Bool-cases (h == slot m j)) [ inl e ↦ rw e | inr e ↦ rw e ])

pub look-put_into :
    (m : Map) (key val j : ℕ)
    → IsMap m
    → look (put_into m key val) j ≡ (if key == j then val else look m j)
unfolding put_into found find
look-put_into m key val j v = ground (
  arith,
  look-replaced m (slot m key) j (record { key = key; val = val } ∷ bucket m (slot m key))
      (v.covers key),
  look-eq-found m j,
  hash_of_eq m key j,
)
  where
    hash_of_eq : (m : Map) (key j : ℕ) → key ≡ j → slot m key ≡ slot m j
    hash_of_eq m key j e = cc

bucket-empty_map : (order h : ℕ) → bucket (empty_map order) h ≡ []
unfolding bucket empty_map
bucket-empty_map order h = get_or-replicate {A = Chain} (2 ^ order) [] h

empty_map-well_formed : (b : ℕ) → 1 ≤ b → b ≤ 32 → IsMap (empty_map (suc b))
empty_map-well_formed b split h = record {
  order_from = unfold empty_map in omega arith;
  order_to = unfold empty_map in omega arith;
  covers = λ key. in_table key;
  distinct = λ i. rw bucket-empty_map tt;
  placed = λ i. rw bucket-empty_map tt;
}
  where
    in_table : (key : ℕ) → slot (empty_map (suc b)) key < length (empty_map (suc b)).hashtable
    in_table key =
        unfold empty_map in
        omega (
          arith,
          slot-lt-half (empty_map (suc b)) key b refl h,
          length-replicate {0} {A = Chain} (2 ^ suc b) [],
          pow-suc 2 b,
        )

-- A fresh map of order 2 to 33 is well formed, and no key finds anything in it.
pub empty_map-IsMap :
    (b : ℕ)
    → 1 ≤ b
    → b ≤ 32
    → IsMap (empty_map (suc b)) × ((j : ℕ) → get (empty_map (suc b)) j ≡ ok 0)
unfolding found find
empty_map-IsMap b split h = (
  empty_map-well_formed b split h,
  λ j.
      get-IsMap (empty_map (suc b)) j (empty_map-well_formed b split h)
      ∙ ap ok (rw (look-eq-found (empty_map (suc b)) j, bucket-empty_map)),
)

pub if-ok : (b : Bool) (x y : ℕ) → ok (if b then x else y) ≡ (if b then ok x else ok y)
if-ok true x y = refl
if-ok false x y = refl

get-put_into :
    (m : Map) (key val j : ℕ)
    → IsMap m
    → contains m key ≡ false
    → get (put_into m key val) j ≡ (if key == j then ok val else get m j)
get-put_into m key val j v new =
    get-IsMap (put_into m key val) j (put_into-IsMap m key val v new)
    ∙ ap ok (look-put_into m key val j v)
    ∙ if-ok (key == j) val (look m j)
    ∙ ap (λ (r : Run ℕ). if key == j then ok val else r) (sym (get-IsMap m j v))

-- On a well-formed map, whose order is from 2 to 65, `put` of a key that the map does not hold
-- succeeds; afterwards the map is well formed, the key
-- finds the value and every other key finds what it found before.
pub put_lem :
    (m : Map) (key val : ℕ)
    → IsMap m
    → contains m key ≡ false
    → (m' : Map) × (put m key val ≡ ok m')
      × IsMap m'
      × ((j : ℕ) → get m' j ≡ (if key == j then ok val else get m j))
put_lem m key val v new = (
  put_into m key val,
  put-eq-ok m key val v new,
  put_into-IsMap m key val v new,
  λ j. get-put_into m key val j v new,
)
