-- ===== src/Sstl/HashMap/Poll.antt =====
-- `poll` of sstl/map.hpp: what it removes when the key is there, and when it is not.
use startos.Prelude.{
  ℕ, ◌==◌, if◌then◌else◌, ◌≡◌, ◌≢◌, refl, true, false, [], ◌∷◌, set, arith, Bool-cases, inl, inr,
  ap, sym, ◌∙◌,
}
use startos.Prelude.Run.{Run, ok, ◌>>=◌}
use startos.Sstl.HashMap.Hash.{slot}
use startos.Sstl.HashMap.{Node, Chain, Map, bucket, find, get, unlink, poll_chain, poll}
use startos.Sstl.HashMap.Lookup.{
  has, contains, Distinct, Placed, IsMap, found, look, look-eq-found, look-replaced, get-IsMap,
  hash-IsMap, if-ok, replaced-bucket, replaced-IsMap,
}

-- Unlinking a key that the chain has.
unlink-found :
    (key : ℕ) (n : Node) (c : Chain)
    → has key (n ∷ c) ≡ true
    → (unlink key n c).0 ≡ found key (n ∷ c)
unfolding unlink has found find
unlink-found key n [] h = ground arith
unlink-found key n (n' ∷ c) h = ground (arith, unlink-found key n' c)

found-not_has : (j : ℕ) (c : Chain) → has j c ≡ false → found j c ≡ 0
unfolding has found find
found-not_has j [] h = refl
found-not_has j (n ∷ c) h = ground (arith, found-not_has j c)

found-unlink :
    (key j : ℕ) (n : Node) (c : Chain)
    → has key (n ∷ c) ≡ true
    → Distinct (n ∷ c)
    → found j (unlink key n c).1 ≡ (if key == j then 0 else found j (n ∷ c))
unfolding unlink has found find
found-unlink key j n [] h d = ground arith
found-unlink key j n (n' ∷ c) h d =
    ground (arith, found-unlink key j n' c, found-not_has j (n' ∷ c))

has-unlink :
    (key j : ℕ) (n : Node) (c : Chain) → has j (n ∷ c) ≡ false → has j (unlink key n c).1 ≡ false
unfolding unlink has
has-unlink key j n [] h = refl
has-unlink key j n (n' ∷ c) h = ground (arith, has-unlink key j n' c)

Distinct-unlink : (key : ℕ) (n : Node) (c : Chain) → Distinct (n ∷ c) → Distinct (unlink key n c).1
unfolding unlink
Distinct-unlink key n [] d = tt
Distinct-unlink key n (n' ∷ c) d =
    ground (arith, Distinct-unlink key n' c, has-unlink key n.key n' c)

Placed-unlink :
    (m : Map) (h key : ℕ) (n : Node) (c : Chain)
    → Placed m h (n ∷ c)
    → Placed m h (unlink key n c).1
unfolding unlink
Placed-unlink m h key n [] p = tt
Placed-unlink m h key n (n' ∷ c) p = elim (Bool-cases (n.key == key)) [
  | inl e ↦ rw e p.1
  | inr e ↦ rw e (p.0, Placed-unlink m h key n' c p.1)
]

-- The map without a key, by what keys find.
record Unlinked (m : Map) (key : ℕ) (m' : Map) : Type 0 where
  pub well_formed : IsMap m'
  pub removed : (j : ℕ) → look m' j ≡ (if key == j then 0 else look m j)

-- The bucket is handed over as a chain of its own, so that it can be split.
poll_chain-Unlinked :
    (m : Map) (key : ℕ) (chain : Chain)
    → IsMap m
    → bucket m (slot m key) ≡ chain
    → has key chain ≡ true
    → (m' : Map) × (poll_chain m key (slot m key) chain ≡ ok (look m key, m')) × Unlinked m key m'
unfolding poll_chain has
poll_chain-Unlinked m key [] v e h = cc
poll_chain-Unlinked m key (n ∷ c) v e h =
    let d : Distinct (n ∷ c) = rw e at (v.distinct (slot m key)) in
    let p : Placed m (slot m key) (n ∷ c) = rw e at (v.placed (slot m key)) in
    let rest = (unlink key n c).1 in
    (
      record m { hashtable = set m.hashtable (slot m key) rest },
      ground (arith, unlink-found key n c, look-eq-found m key),
      record {
        well_formed =
            replaced-IsMap m (slot m key) rest v (v.covers key) (Distinct-unlink key n c d)
              (Placed-unlink m (slot m key) key n c p);
        removed = λ j. ground (
          arith,
          look-replaced m (slot m key) j rest (v.covers key),
          look-eq-found m j,
          found-unlink key j n c h d,
          hash_of_eq key j,
        );
      },
    )
  where
    hash_of_eq : (key j : ℕ) → key ≡ j → slot m key ≡ slot m j
    hash_of_eq key j e = cc

-- What `poll` of a key does to the map, given that it returns.
pub record Polled (m : Map) (key : ℕ) (m' : Map) : Type 0 where
  pub well_formed : IsMap m'
  pub removed : (j : ℕ) → get m' j ≡ (if key == j then ok 0 else get m j)

Unlinked-Polled : (m : Map) (key : ℕ) (m' : Map) → IsMap m → Unlinked m key m' → Polled m key m'
Unlinked-Polled m key m' v u = record {
  well_formed = u.well_formed;
  removed = λ j.
      get-IsMap m' j u.well_formed
      ∙ ap ok (u.removed j)
      ∙ if-ok (key == j) 0 (look m j)
      ∙ ap (λ (r : Run ℕ). if key == j then ok 0 else r) (sym (get-IsMap m j v));
}

-- On a well-formed map, whose order is from 2 to 65, `poll` of a key that the map holds returns the
-- value that `get` finds; afterwards the map is well formed, the key
-- is gone and every other key finds what it found before.
pub poll_lem :
    (m : Map) (key : ℕ)
    → IsMap m
    → contains m key ≡ true
    → (val : ℕ) × (m' : Map) × (get m key ≡ ok val) × (poll m key ≡ ok (val, m')) × Polled m key m'
unfolding poll contains
poll_lem m key v h =
    let (m', runs, u) = poll_chain-Unlinked m key (bucket m (slot m key)) v refl h in
    (
      look m key,
      m',
      get-IsMap m key v,
      rw (poll, hash-IsMap m key v, ◌>>=◌) runs,
      Unlinked-Polled m key m' v u,
    )

-- The last node of a chain.
unfoldable pub last_node : Node → Chain → Node
last_node n [] = n
last_node n (n' ∷ c) = last_node n' c

-- Unlinking a key that is not there takes the last node.
unlink-missing :
    (key : ℕ) (n : Node) (c : Chain)
    → has key (n ∷ c) ≡ false
    → Distinct (n ∷ c)
    → ((unlink key n c).0 ≡ (last_node n c).val)
      × (has (last_node n c).key (n ∷ c) ≡ true)
      × (has (last_node n c).key (unlink key n c).1 ≡ false)
unfolding unlink has last_node
unlink-missing key n [] h d = ground arith
unlink-missing key n (n' ∷ c) h d = ground (arith, unlink-missing key n' c)

slot-Placed : (m : Map) (h j : ℕ) (c : Chain) → Placed m h c → has j c ≡ true → slot m j ≡ h
unfolding has
slot-Placed m h j [] p e = cc
slot-Placed m h j (n ∷ c) p e = elim (Bool-cases (n.key == j)) [
  | inl same ↦ (let eq : n.key ≡ j = ground arith in rw (← eq) p.0)
  | inr other ↦ slot-Placed m h j c p.1 (rw other at e)
]

==_refl : (a : ℕ) → (a == a) ≡ true
==_refl a = ground arith

poll-at :
    (m : Map) (key : ℕ) (n : Node) (c : Chain)
    → IsMap m
    → bucket m (slot m key) ≡ n ∷ c
    → let r = unlink key n c in
      poll m key ≡ ok (r.0, record m { hashtable = set m.hashtable (slot m key) r.1 })
unfolding poll poll_chain
poll-at m key n c v e = rw (poll, hash-IsMap m key v, ◌>>=◌, e) refl

-- What `poll` of a missing key does: another key `j`, present before, is gone.
pub record Lost (m : Map) (key j : ℕ) (m' : Map) : Type 0 where
  pub other : j ≢ key
  pub before : contains m j ≡ true
  pub after : contains m' j ≡ false

-- `poll` of a key that is not there, in a bucket that is not empty, returns the value of the
-- bucket's last node and deletes that node, which has another key.
pub poll_missing :
    (m : Map) (key : ℕ) (n : Node) (c : Chain)
    → IsMap m
    → contains m key ≡ false
    → bucket m (slot m key) ≡ n ∷ c
    → (m' : Map) × (poll m key ≡ ok ((last_node n c).val, m')) × Lost m key (last_node n c).key m'
unfolding contains
poll_missing m key n c v new e =
    let d : Distinct (n ∷ c) = rw e at (v.distinct (slot m key)) in
    let p : Placed m (slot m key) (n ∷ c) = rw e at (v.placed (slot m key)) in
    let new' : has key (n ∷ c) ≡ false = rw e at new in
    let (value, was, gone) = unlink-missing key n c new' d in
    let j = (last_node n c).key in
    let hj : slot m j ≡ slot m key = slot-Placed m (slot m key) j (n ∷ c) p was in
    (
      record m { hashtable = set m.hashtable (slot m key) (unlink key n c).1 },
      rw (poll-at m key n c v e, value),
      record {
        other = λ same. ground arith;
        before = rw (hj, e) was;
        after =
            rw (replaced-bucket m (slot m key) j (unlink key n c).1 (v.covers key), hj)
              (rw (==_refl (slot m key)) gone);
      },
    )
