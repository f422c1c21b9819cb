-- ===== src/Memory/Pages/Init.antt =====
-- `init` and `freeRange` of kernel/memory/MemAllocator.cpp hand the allocator every whole page.
use startos.Prelude.{
  ℕ, zero, suc, ◌+◌, ◌-◌, ◌*◌, ◌/◌, ◌%◌, ◌^◌, ◌≤◌, ◌<◌, leb, ltb, ◌&&◌, true, false, ◌≡◌, List, [],
  ◌∷◌, length, count, arith, ◌==◌, if◌then◌else◌,
}
use startos.Prelude.Run.{ok}
use startos.Memory.{phystop, pground_up-eq}
use startos.Memory.Pages.{Memory, free_pages, free_range, init}
use startos.Memory.Pages.Invariant.{Holds, free_lem}

-- The list `xs` after the `k` pages from `p` on are put at its head, one after the other.
unfoldable pub pushed : ℕ → ℕ → List ℕ → List ℕ
pushed zero p xs = xs
pushed (suc k) p xs = pushed k (p + 4096) (p ∷ xs)

-- Each of the pages is there once, and nothing else is added.
pub count-pushed :
    (k p a : ℕ) (xs : List ℕ)
    → p % 4096 ≡ 0
    → count a (pushed k p xs)
      ≡ (if leb p a && ltb a (p + k * 4096) && a % 4096 == 0 then suc (count a xs) else count a xs)
unfolding pushed
count-pushed zero p a xs h = ground arith
count-pushed (suc k) p a xs h = ground (arith, count-pushed k (p + 4096) a (p ∷ xs))

pub length-pushed : (k p : ℕ) (xs : List ℕ) → length (pushed k p xs) ≡ k + length xs
unfolding pushed
length-pushed zero p xs = omega arith
length-pushed (suc k) p xs = omega (arith, length-pushed k (p + 4096) (p ∷ xs))

record Filled (end k : ℕ) (s : Memory) (p pa_end fuel : ℕ) (xs : List ℕ) (s' : Memory)
    : Type 0 where
  returned : free_pages end fuel s p pa_end ≡ ok s'
  holds : Holds end s' (pushed k p xs)
  total : s'.total_page ≡ (s.total_page + k) % 2 ^ 32

counted_total :
    (end t : ℕ) (s : Memory) (xs : List ℕ)
    → Holds end s xs
    → Holds end (record s { total_page = t }) xs
counted_total end t s xs h = record {
  chain = h.chain;
  pages = h.pages;
  once = h.once;
  counted = h.counted;
}

module _ (end pa_end : ℕ) (pos : 0 < end) (top : pa_end ≤ phystop) where
  free_pages-Filled :
      (fuel k : ℕ) (s : Memory) (p : ℕ) (xs : List ℕ)
      → Holds end s xs
      → s.total_page < 2 ^ 32
      → ((a : ℕ) → 1 ≤ count a xs → a < p)
      → p % 4096 ≡ 0
      → end ≤ p
      → p + k * 4096 ≤ pa_end
      → pa_end < p + k * 4096 + 4096
      → k < fuel
      → (s' : Memory) × Filled end k s p pa_end fuel xs s'
  unfolding free_pages pushed
  free_pages-Filled zero k s p xs h t old al ab fits last enough = absurd (omega arith)
  free_pages-Filled (suc f) zero s p xs h t old al ab fits last enough =
      let stop : leb (p + 4096) pa_end ≡ false = ground arith in
      (s, record { returned = rw (stop, free_pages); holds = h; total = omega arith })
  free_pages-Filled (suc f) (suc k) s p xs h t old al ab fits last enough =
      let more : leb (p + 4096) pa_end ≡ true = ground arith in
      let t1 : ℕ = (s.total_page + 1) % 2 ^ 32 in
      let s1 : Memory = record s { total_page = t1 } in
      let (s2, freed) =
        free_lem end s1 p xs (counted_total end t1 s xs h) pos
          (record { aligned = al; above = ab; below = omega arith }) (ground (arith, old p)) in
      let (s3, rest) =
        free_pages-Filled f k s2 (p + 4096) (p ∷ xs) freed.holds (omega (arith, freed.total))
          (λ a i. ground (arith, old a)) (omega arith) (omega arith) (omega arith) (omega arith)
          (omega arith) in
      (
        s3,
        record {
          returned = rw (more, free_pages) (rw freed.returned rest.returned);
          holds = rest.holds;
          total = omega (arith, rest.total, freed.total);
        },
      )

-- The pages that `init` finds: from the first page boundary after the kernel to the top.
abbrev pub first_page : ℕ → ℕ
first_page end = (end + 4095) / 4096 * 4096

abbrev pub page_count : ℕ → ℕ
page_count end = (phystop - first_page end) / 4096

-- `init` on memory that starts out zeroed returns, given a round for every page, and leaves an
-- allocator that holds every whole page between the kernel's end and the top of memory exactly once;
-- `npage` and `total_page` both count them.
pub init-Holds :
    (end fuel : ℕ) (s : Memory)
    → 0 < end
    → end ≤ phystop
    → s.free_list ≡ 0
    → s.total_page ≡ 0
    → page_count end < fuel
    → (s' : Memory) × (init end fuel s ≡ ok s')
      × Holds end s' (pushed (page_count end) (first_page end) [])
      × (s'.npage ≡ page_count end)
      × (s'.total_page ≡ page_count end)
unfolding init free_range
init-Holds end fuel s pos top empty fresh enough =
    let (s', f) =
      free_pages-Filled end phystop pos (omega arith) fuel (page_count end) (record s { npage = 0 })
        (first_page end) []
        (record { chain = empty; pages = tt; once = λ a. omega arith; counted = omega arith })
        (omega arith) (λ a i. absurd (omega arith)) (omega arith) (omega arith) (omega arith)
        (omega arith) enough in
    (
      s',
      rw (pground_up-eq end (omega arith)) f.returned,
      f.holds,
      omega (arith, f.holds.counted, length-pushed (page_count end) (first_page end) []),
      omega (arith, f.total),
    )
