-- ===== src/Sstl/HashMap/Tests.antt =====
-- The map of `TestHashMap`, of order 5 with the keys 1 and 50, and the theorems at it.
use startos.Prelude.{ℕ, ◌*◌, ◌^◌, ◌/◌, ◌%◌, ◌-◌, ◌<◌, ◌==◌, if◌then◌else◌, ◌≡◌, refl, [], arith}
use startos.Prelude.Run.{ok, panic, fault}
use startos.Sstl.HashMap.{
  Map, add64, sub64, shl64, mix_64, hash_64, empty_map, hash, bucket, find, put_at, put, value_in,
  get, unlink, poll_chain, poll, scan, begin, next,
}
use startos.Sstl.HashMap.Hash.{slot, hash_64-eq-mul, hash-lt-half}
use startos.Sstl.HashMap.Lookup.{
  has, contains, IsMap, put_duplicate, put_into, empty_map-IsMap, put_lem, put_into-IsMap,
}
use startos.Sstl.HashMap.Poll.{Polled, Lost, last_node, poll_lem, poll_missing}
use startos.Sstl.HashMap.Iterate.{walk, nodes, nodes_from, walk-begin}

abbrev fresh : Map
fresh = empty_map 5

abbrev one_key : Map
one_key = put_into fresh 1 0x1000

abbrev two_keys : Map
two_keys = put_into one_key 50 0x2000

-- Everything that a lookup runs through.
all_open : ℕ
unfolding empty_map hash slot startos.Sstl.HashMap.Hash.top hash_64 mix_64 add64 sub64 shl64 bucket
    find put_at put value_in get unlink poll_chain poll scan begin next has contains put_into
    last_node walk nodes nodes_from
all_open = 0

hashes : (hash fresh 1 ≡ ok 9) × (hash fresh 50 ≡ ok 14) × (hash (empty_map 1) 1 ≡ fault)
unfolding all_open
hashes = (refl, refl, refl)

put-get :
    (put one_key 50 0x2000 ≡ ok two_keys) × (get two_keys 50 ≡ ok 0x2000) × (get two_keys 2 ≡ ok 0)
unfolding all_open
put-get = (refl, refl, refl)

fresh-IsMap : IsMap fresh
fresh-IsMap = (empty_map-IsMap 4 (omega arith) (omega arith)).0

one_key-IsMap : IsMap one_key
unfolding all_open
one_key-IsMap = put_into-IsMap fresh 1 0x1000 fresh-IsMap refl

hash_64-eq-mul_example : hash_64 50 4 ≡ ok (50 * 0x9e37fffffffc0001 % 2 ^ 64 / 2 ^ (64 - 4))
hash_64-eq-mul_example = hash_64-eq-mul 50 4 (omega arith) (omega arith) (omega arith)

hash-lt-half_example : (h : ℕ) × (hash fresh 50 ≡ ok h) × (h < 2 ^ 4)
unfolding empty_map
hash-lt-half_example = hash-lt-half fresh 50 4 refl (omega arith) (omega arith)

starts_empty : IsMap fresh × ((j : ℕ) → get fresh j ≡ ok 0)
starts_empty = empty_map-IsMap 4 (omega arith) (omega arith)

panics_on_duplicate : put one_key 1 0x3000 ≡ panic
unfolding all_open
panics_on_duplicate = put_duplicate one_key 1 0x3000 one_key-IsMap refl

put_lem_example :
    (m' : Map) × (put one_key 50 0x2000 ≡ ok m')
    × IsMap m'
    × ((j : ℕ) → get m' j ≡ (if 50 == j then ok 0x2000 else get one_key j))
unfolding all_open
put_lem_example = put_lem one_key 50 0x2000 one_key-IsMap refl

poll_lem_example :
    (val : ℕ) × (m' : Map) × (get one_key 1 ≡ ok val)
    × (poll one_key 1 ≡ ok (val, m'))
    × Polled one_key 1 m'
unfolding all_open
poll_lem_example = poll_lem one_key 1 one_key-IsMap refl

-- 22 hashes to the bucket of 1, is not in the map, and its `poll` deletes the key 1.
poll_missing_test : (m' : Map) × (poll one_key 22 ≡ ok (0x1000, m')) × Lost one_key 22 1 m'
unfolding all_open
poll_missing_test =
    poll_missing one_key 22 (record { key = 1; val = 0x1000 }) [] one_key-IsMap refl refl

walk-begin_test : walk 2 one_key (begin one_key) ≡ ok (nodes one_key)
unfolding all_open
walk-begin_test = walk-begin one_key 2 31 one_key-IsMap refl (omega arith)
