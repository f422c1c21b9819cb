-- ===== src/Sstl/HashMap.antt =====
-- sstl/map.hpp: `std::map`, a table of chains that may not grow. The chains are owned by the table
-- alone, so a chain is the list of its nodes in order. Each method runs under the map's spinlock.
-- Keys are 64-bit numbers and values are addresses, `0` for NULL.
pub mod Hash
pub mod Lookup
pub mod Poll
pub mod Iterate
mod Tests
use startos.Prelude.{
  ℕ, zero, suc, ◌+◌, ◌-◌, ◌*◌, ◌/◌, ◌%◌, ◌^◌, ◌==◌, if◌then◌else◌, Bool, true, false, ◌||◌, List,
  [], ◌∷◌, Option, none, some, get_or, set, replicate, ltb, leb, ◌&&◌,
}
use startos.Prelude.Run.{Run, ok, panic, fault, ◌>>=◌}

-- `uint64_t` arithmetic
pub add64 : ℕ → ℕ → ℕ
add64 a b = (a + b) % 2 ^ 64

pub sub64 : ℕ → ℕ → ℕ
sub64 a b = (a + 2 ^ 64 - b) % 2 ^ 64

pub shl64 : ℕ → ℕ → ℕ
shl64 a k = a * 2 ^ k % 2 ^ 64

-- The mixing steps of `hash_64`, before its final shift.
pub mix_64 : ℕ → ℕ
mix_64 val =
    let n1 = shl64 val 18 in
    let h1 = sub64 val n1 in
    let n2 = shl64 n1 33 in
    let h2 = sub64 h1 n2 in
    let n3 = shl64 n2 3 in
    let h3 = add64 h2 n3 in
    let n4 = shl64 n3 3 in
    let h4 = sub64 h3 n4 in
    let n5 = shl64 n4 4 in let h5 = add64 h4 n5 in let n6 = shl64 n5 2 in add64 h5 n6

-- The shift by `64 - bits` is defined in C++ for `bits` from 1 to 64.
unfoldable pub hash_64 : ℕ → ℕ → Run ℕ
hash_64 val bits = if leb 1 bits && leb bits 64 then ok (mix_64 val / 2 ^ (64 - bits)) else fault

pub record Node : Type 0 where
  pub key : ℕ
  pub val : ℕ

abbrev pub Chain : Type 0
Chain = List Node

pub record Map : Type 0 where
  pub hashtable : List Chain
  pub bits : ℕ
  pub num_bucket : ℕ

-- `map(order)`
pub empty_map : ℕ → Map
empty_map order = record {
  hashtable = replicate (2 ^ order) [];
  bits = order;
  num_bucket = 2 ^ order;
}

-- `hash(key)`, which asks for one bit less than the table has, as a 32-bit `uint_t`.
unfoldable pub hash : Map → ℕ → Run ℕ
hash m key = hash_64 key ((m.bits + 2 ^ 32 - 1) % 2 ^ 32) >>= λ h. ok (h % 2 ^ 32)

pub bucket : Map → ℕ → Chain
bucket m h = get_or m.hashtable h []

-- The search loop of `put` and `get`.
pub find : ℕ → Chain → Option Node
find key [] = none
find key (n ∷ c) = if n.key == key then some n else find key c

-- `put` at its bucket: a key that is present stops the kernel.
pub put_at : Map → ℕ → ℕ → ℕ → Run Map
put_at m key val h =
    let c = bucket m h in
    elim (find key c) [
      | some n ↦ panic
      | none ↦ ok (record m { hashtable = set m.hashtable h (record { key = key; val = val } ∷ c) })
    ]

unfoldable pub put : Map → ℕ → ℕ → Run Map
put m key val = hash m key >>= λ h. put_at m key val h

-- The value that `get` finds in a chain, or NULL.
pub value_in : ℕ → Chain → ℕ
value_in key c = elim (find key c) [ none ↦ 0 | some n ↦ n.val ]

unfoldable pub get : Map → ℕ → Run ℕ
get m key = hash m key >>= λ h. ok (value_in key (bucket m h))

-- The loop of `poll` on a non-empty chain `n ∷ c`: it stops at the key or at the last node,
-- and the node that it stops at is unlinked. Returns the value and what is left of the chain.
pub unlink : ℕ → Node → Chain → ℕ × Chain
unlink key n [] = (n.val, [])
unlink key n (n' ∷ c) =
    let rest = unlink key n' c in if n.key == key then (n.val, n' ∷ c) else (rest.0, n ∷ rest.1)

pub poll_chain : Map → ℕ → ℕ → Chain → Run (ℕ × Map)
poll_chain m key h [] = panic
poll_chain m key h (n ∷ c) =
    let r = unlink key n c in ok (r.0, record m { hashtable = set m.hashtable h r.1 })

unfoldable pub poll : Map → ℕ → Run (ℕ × Map)
poll m key = hash m key >>= λ h. poll_chain m key h (bucket m h)

-- An iterator: the chain from its node on, empty at the end. Its map is passed to each operation.
abbrev pub Iterator : Type 0
Iterator = Chain

-- `while (!node_ && ++index < num_bucket_) node_ = hashtable_[index]`, from bucket `i`, with the
-- number of buckets left.
pub scan : ℕ → Map → ℕ → Iterator
scan zero m i = []
scan (suc k) m i = elim (bucket m i) [ [] ↦ scan k m (i + 1) | n ∷ c ↦ n ∷ c ]

pub begin : Map → Iterator
begin m = scan m.num_bucket m 0

-- `operator++`; at the end it would read through a null pointer.
pub next : Map → Iterator → Run Iterator
next m [] = fault
next m (n ∷ n' ∷ c) = ok (n' ∷ c)
next m (n ∷ []) = hash m n.key >>= λ index. ok (scan (m.num_bucket - (index + 1)) m (index + 1))
