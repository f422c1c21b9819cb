-- ===== src/Memory/Buddy/Tests.antt =====
-- A buddy allocator over two pages below the top of memory, and the theorems at it.
use Prim.Native.Nat.{compare, Ordering}
use startos.Prelude.{ℕ, ◌≡◌, ◌⊎◌, refl, List, [], ◌∷◌, arith}
use startos.Prelude.Run.{Run, ok, panic, fault}
use startos.Memory.Pages
use startos.Memory.Pages.{Memory}
use startos.Memory.Buddy.{
  Buddy, init, calc_loop, calc_level, get_buddy, write_word, set_head, push, find_block, split,
  take_page, set_level, alloc, free,
}
use startos.Memory.Buddy.Level.{IsLevel, calc_level-IsLevel, alloc-fault}
use startos.Memory.Buddy.Cover.{Levels, cover, total}
use startos.Memory.Buddy.Blocks.{IsBlock, Sound}
use startos.Memory.Buddy.Alloc.{Given, Exhausted, alloc-cases}
use startos.Memory.Buddy.Merge.{Merged, free-Merged}

abbrev end : ℕ
end = 0x805f_dff0

-- One page is on the page allocator's list; the page above it is in use, its header says level 12.
abbrev one_page : Memory
one_page = record {
  words = λ a. elim (compare a 0x805f_f000) [ Ordering.eq ↦ 12 | _ ↦ 0 ];
  free_list = 0x805f_e000;
  npage = 1;
  total_page = 2;
}

abbrev start : Buddy
start = init one_page

abbrev no_blocks : Levels
no_blocks = λ _. []

abbrev page : List ℕ
page = 0x805f_e000 ∷ []

cover-none : (a : ℕ) → cover no_blocks a ≡ 0
unfolding cover total
cover-none a = omega arith

start-Sound : Sound end start no_blocks page
unfolding init
start-Sound = record {
  chains = λ i le. refl;
  blocks = λ i le. tt;
  pages = record {
    chain = omega arith;
    pages = omega arith;
    once = λ a. ground arith;
    counted = refl;
  };
  disjoint = λ a. ground (arith, cover-none a);
}

calc_level-IsLevel_test : (lv : ℕ) × (calc_level 33 ≡ ok lv) × IsLevel 33 lv
calc_level-IsLevel_test = calc_level-IsLevel 33 (omega arith)

-- 25 bytes and the header take a block of 64; the halves go on the lists of levels 6 to 11.
alloc_run : Run ℕ
unfolding alloc calc_level calc_loop find_block take_page Pages.alloc split push get_buddy set_head
    write_word set_level init
alloc_run = elim (alloc start 25) [ ok r ↦ ok r.0 | panic ↦ panic | fault ↦ fault ]

alloc_run_result : alloc_run ≡ ok 0x805f_e008
unfolding alloc_run
alloc_run_result = refl

alloc-fault_example : alloc start 4089 ≡ fault
alloc-fault_example = alloc-fault start 4089 (omega arith) (omega arith)

alloc-cases_example :
    Given end start no_blocks page 25 ⊎ ((alloc start 25 ≡ panic) × Exhausted no_blocks page 25)
alloc-cases_example = alloc-cases end start no_blocks page 25 start-Sound (omega arith)

in_use : IsBlock end 12 0x805f_f000
in_use = record { multiple = 0x805ff; aligned = refl; page = omega arith }

free-Merged_example : Merged end no_blocks page 12 0x805f_f000 (free end 1 start 0x805f_f008)
unfolding init
free-Merged_example =
    free-Merged end 1 12 start no_blocks page 0x805f_f000 (omega arith) (omega arith) start-Sound
      (λ j le. omega arith) (omega arith) in_use (λ a. ground (arith, cover-none a)) refl
