-- ===== src/Memory/Pages/Tests.antt =====
-- An allocator over the last two pages below the top of memory, and the theorems at it.
use startos.Prelude.{ℕ, ◌≡◌, refl, inl, List, [], ◌∷◌, arith}
use Prim.Native.Nat.{compare, Ordering}
use startos.Prelude.Run.{ok, panic}
use startos.Memory.{store}
use startos.Memory.Pages.{Memory, alloc, free, init}
use startos.Memory.Pages.Invariant.{
  Holds, Allocated, alloc-nil, alloc-cons, free-panic, Freed, free_lem,
}
use startos.Memory.Pages.Init.{pushed, page_count, first_page, init-Holds}
use startos.Memory.Pages.Clients.{World, take, write, Steps, here, next, Kept, Steps-Kept}

-- The kernel ends two pages and a bit below the top.
abbrev end : ℕ
end = 0x805f_dff0

abbrev zeroed : Memory
zeroed = record { words = λ _. 0; free_list = 0; npage = 0; total_page = 0 }

-- The same with the higher page on the list, linked to the lower one.
abbrev two_pages : Memory
two_pages = record {
  words = λ a. elim (compare a 0x805f_f000) [ Ordering.eq ↦ 0x805f_e000 | _ ↦ 0 ];
  free_list = 0x805f_f000;
  npage = 2;
  total_page = 2;
}

abbrev both : List ℕ
both = 0x805f_f000 ∷ 0x805f_e000 ∷ []

two_pages-Holds : Holds end two_pages both
two_pages-Holds = record {
  chain = omega arith;
  pages = omega arith;
  once = λ a. ground arith;
  counted = refl;
}

init-Holds_example :
    (s' : Memory) × (init end 3 zeroed ≡ ok s')
    × Holds end s' (pushed (page_count end) (first_page end) [])
    × (s'.npage ≡ page_count end)
    × (s'.total_page ≡ page_count end)
init-Holds_example = init-Holds end 3 zeroed (omega arith) (omega arith) refl refl (omega arith)

pushed-both : pushed (page_count end) (first_page end) [] ≡ both
unfolding pushed
pushed-both = refl

alloc-cons_test : Allocated end two_pages 0x805f_f000 (0x805f_e000 ∷ []) (alloc two_pages)
alloc-cons_test = alloc-cons end two_pages 0x805f_f000 (0x805f_e000 ∷ []) two_pages-Holds

zeroed-Holds : Holds end zeroed []
zeroed-Holds = record { chain = refl; pages = tt; once = λ a. omega arith; counted = refl }

exhausted : alloc zeroed ≡ (0, zeroed)
exhausted = alloc-nil end zeroed zeroed-Holds

panics_when_unaligned : free end zeroed 0x805f_f008 ≡ panic
panics_when_unaligned = free-panic end zeroed 0x805f_f008 (inl (omega arith))

free_lem_test : (s' : Memory) × Freed end zeroed 0x805f_f000 [] s'
free_lem_test =
    free_lem end zeroed 0x805f_f000 [] zeroed-Holds (omega arith)
      (record { aligned = refl; above = omega arith; below = omega arith }) refl

abbrev start : World
start = record { memory = two_pages; owned = [] }

-- One page is taken and its link is overwritten.
abbrev taken : World
taken = record { memory = (alloc two_pages).1; owned = (alloc two_pages).0 ∷ [] }

took : (alloc two_pages).0 ≡ 0x805f_f000
unfolding alloc
took = refl

abbrev written : World
written = record {
  memory = record (taken.memory) { words = store taken.memory.words 0x805f_f000 7 };
  owned = taken.owned;
}

steps : Steps end start written
unfolding alloc
steps =
    next (next here (take (omega arith)))
      (write 0x805f_f000 0x805f_f000 7 (omega arith) (omega arith) (omega arith))

Steps-Kept_example : (ys : List ℕ) × Kept end start both written ys
Steps-Kept_example =
    Steps-Kept end both (omega arith)
      (record { holds = two_pages-Holds; pages = tt; disjoint = λ a. ground arith }) steps
