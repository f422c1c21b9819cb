-- ===== src/Sstl/HashMap/Iterate.antt =====
-- The iterator of sstl/map.hpp: a loop from `begin` by `++` meets every node, bucket by bucket.
use startos.Prelude.{
  ℕ, zero, suc, ◌+◌, ◌-◌, ◌<◌, ◌≡◌, refl, List, [], ◌∷◌, ◌++◌, arith, ap, length, length-append,
  ◌∙◌,
}
use startos.Prelude.Run.{Run, ok, fault, ◌>>=◌}
use startos.Sstl.HashMap.{Node, Chain, Map, Iterator, bucket, scan, begin, next}
use startos.Sstl.HashMap.Lookup.{Placed, IsMap, hash-IsMap}
use startos.Sstl.HashMap.Hash.{slot}

-- The loop `for (it = begin(); it != nullptr; it++)`, with fuel, collecting the nodes.
unfoldable pub walk : ℕ → Map → Iterator → Run (List Node)
walk zero m it = fault
walk (suc k) m [] = ok []
walk (suc k) m (n ∷ c) = next m (n ∷ c) >>= λ it. walk k m it >>= λ ns. ok (n ∷ ns)

-- The nodes of `k` buckets from bucket `i` on.
unfoldable pub nodes_from : ℕ → Map → ℕ → List Node
nodes_from zero m i = []
nodes_from (suc k) m i = bucket m i ++ nodes_from k m (i + 1)

unfoldable pub nodes : Map → List Node
nodes m = nodes_from m.num_bucket m 0

-- The iterator at chain `c`, what is left of bucket `i`, before `k` more buckets.
abbrev from : ℕ → Map → ℕ → Chain → Iterator
from k m i [] = scan k m (i + 1)
from k m i (n ∷ c) = n ∷ c

scan-zero : (m : Map) (i : ℕ) → scan 0 m i ≡ []
unfolding scan
scan-zero m i = refl

scan-from : (k : ℕ) (m : Map) (i : ℕ) → scan (suc k) m i ≡ from k m i (bucket m i)
unfolding scan
scan-from k m i = split (bucket m i)
  where
    split :
        (c : Chain)
        → (elim c as (λ _. Iterator) [ [] ↦ scan k m (i + 1) | n ∷ c ↦ n ∷ c ]) ≡ from k m i c
    split [] = refl
    split (n ∷ c) = refl

next-from :
    (m : Map) (i k : ℕ) (n : Node) (c : Chain)
    → IsMap m
    → slot m n.key ≡ i
    → suc i + k ≡ m.num_bucket
    → next m (n ∷ c) ≡ ok (from k m i c)
unfolding next
next-from m i k n [] v h e =
    let left : m.num_bucket - (slot m n.key + 1) ≡ k = omega arith in
    rw (next, hash-IsMap m n.key v, ◌>>=◌, left, h) refl
next-from m i k n (n' ∷ c) v h e = refl

walk-from :
    (fuel k : ℕ) (m : Map) (i : ℕ) (c : Chain)
    → IsMap m
    → Placed m i c
    → suc i + k ≡ m.num_bucket
    → length c + length (nodes_from k m (i + 1)) < fuel
    → walk fuel m (from k m i c) ≡ ok (c ++ nodes_from k m (i + 1))
unfolding walk nodes_from
walk-from zero k m i c v p e h = absurd (omega arith)
walk-from (suc f) zero m i [] v p e h = rw scan-zero
walk-from (suc f) (suc k) m i [] v p e h = rw scan-from (
    walk-from (suc f) k m (i + 1) (bucket m (i + 1)) v (v.placed (i + 1)) (omega arith)
      (omega (arith, length-append (bucket m (i + 1)) (nodes_from k m (i + 1 + 1)))))
walk-from (suc f) k m i (n ∷ c) v p e h =
    rw (next-from m i k n c v p.0 e, walk-from f k m i c v p.1 e (omega arith))

begin-from : (m : Map) (k : ℕ) → m.num_bucket ≡ suc k → begin m ≡ from k m 0 (bucket m 0)
unfolding begin
begin-from m k e = ap (λ (t : ℕ). scan t m 0) e ∙ scan-from k m 0

nodes-from : (m : Map) (k : ℕ) → m.num_bucket ≡ suc k → nodes m ≡ bucket m 0 ++ nodes_from k m 1
unfolding nodes nodes_from
nodes-from m k e = ap (λ (t : ℕ). nodes_from t m 0) e

-- A loop from `begin` by `++` to the end, with more rounds than the map has nodes, ends without a
-- null read, and meets the nodes of every bucket in order, each once.
pub walk-begin :
    (m : Map) (fuel k : ℕ)
    → IsMap m
    → m.num_bucket ≡ suc k
    → length (nodes m) < fuel
    → walk fuel m (begin m) ≡ ok (nodes m)
walk-begin m fuel k v e h =
    let size : length (nodes m) ≡ length (bucket m 0) + length (nodes_from k m 1) =
      ap length (nodes-from m k e) ∙ length-append (bucket m 0) (nodes_from k m 1) in
    rw (begin-from m k e, nodes-from m k e)
      (walk-from fuel k m 0 (bucket m 0) v (v.placed 0) (omega arith) (omega arith))
