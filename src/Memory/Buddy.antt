-- ===== src/Memory/Buddy.antt =====
-- kernel/memory/BuddyAllocator.cpp: blocks of 2^4 to 2^12 bytes, a free list for each level threaded
-- through the first word of each free block, whole pages taken from and returned to `MemAllocator`.
pub mod Level
pub mod Cover
pub mod Blocks
pub mod Split
pub mod Search
pub mod Alloc
pub mod Unlink
pub mod Merge
mod Tests
use startos.Prelude.{
  ℕ, zero, suc, ◌+◌, ◌-◌, ◌*◌, ◌/◌, ◌%◌, ◌^◌, ◌==◌, ltb, leb, if◌then◌else◌, Bool, true, false,
  bit_xor, List, [], ◌∷◌, replicate, get_or, set,
}
use startos.Prelude.Run.{Run, ok, panic, fault, ◌>>=◌}
use startos.Memory.{Words, store}
use startos.Memory.Pages
use startos.Memory.Pages.{Memory}

abbrev pub min_level : ℕ
min_level = 4

abbrev pub max_level : ℕ
max_level = 12

-- `BuddyAllocator` over the memory of the page allocator: the heads of its free lists, by level.
pub record Buddy : Type 0 where
  pub memory : Memory
  pub freelist : ℕ → ℕ

pub init : Memory → Buddy
init m = record { memory = m; freelist = λ _. 0 }

-- The loop of `_calc_level`, with fuel: `sz` is the size of level `lv`.
pub calc_loop : ℕ → ℕ → ℕ → ℕ → Run ℕ
calc_loop zero size sz lv = fault
calc_loop (suc k) size sz lv = elim (ltb sz size) [
  | true ↦ calc_loop k size (sz * 2 % 2 ^ 64) (lv + 1)
  | false ↦ ok lv
]

-- `_calc_level`; 61 rounds take `sz` from 2^4 past the top bit of a `size_t`.
pub calc_level : ℕ → Run ℕ
calc_level size = calc_loop 61 size (2 ^ min_level) min_level

-- `_get_buddy`
pub get_buddy : ℕ → ℕ → ℕ
get_buddy block lv = bit_xor block (2 ^ lv)

pub write_word : Buddy → ℕ → ℕ → Buddy
write_word s a v = record s { memory = record (s.memory) { words = store s.memory.words a v } }

pub set_head : Buddy → ℕ → ℕ → Buddy
set_head s i p = record s { freelist = λ j. if j == i then p else s.freelist j }

-- `block->next = freelist[i]; freelist[i] = block`
pub push : Buddy → ℕ → ℕ → Buddy
push s i block = set_head (write_word s block (s.freelist i)) i block

-- The search of `alloc` from level `i` up; a level past the end of `freelist` is out of the table.
-- Returns the level that it stops at and the block, 0 if every list was empty.
pub find_block : ℕ → Buddy → ℕ → Run (ℕ × ℕ × Buddy)
find_block zero s i = fault
find_block (suc k) s i = elim (ltb max_level i) [
  | true ↦ fault
  | false ↦ elim (s.freelist i == 0) [
    | false ↦ ok (i, s.freelist i, set_head s i (s.memory.words (s.freelist i)))
    | true ↦ elim (leb max_level i) [ true ↦ ok (i, 0, s) | false ↦ find_block k s (i + 1) ]
  ]
]

-- `for (; i > lv; i--)`: `n` levels are left to split; the upper half goes to the list of its level.
pub split : ℕ → Buddy → ℕ → ℕ → Buddy
split zero s block lv = s
split (suc n) s block lv = split n (push s (lv + n) (get_buddy block (lv + n))) block lv

-- `if (block == NULL)`: a whole page.
pub take_page : ℕ × ℕ × Buddy → Run (ℕ × ℕ × Buddy)
take_page (i, block, s) =
    if block == 0
    then (let r = Pages.alloc s.memory in
        if r.0 == 0 then panic else ok (i, r.0, record s { memory = r.1 }))
    else ok (i, block, s)

-- `*b = lv`, the low byte of the block's first word
pub set_level : Buddy → ℕ → ℕ → Buddy
set_level s block lv = let w = s.memory.words block in write_word s block (w / 256 * 256 + lv % 256)

-- `alloc(sz)`: the address past the header word of the block.
pub alloc : Buddy → ℕ → Run (ℕ × Buddy)
alloc s sz = calc_level ((sz + 8) % 2 ^ 64) >>= λ lv. find_block 13 s lv >>= λ r.
    take_page r >>= λ r'. ok (r'.1 + 8, set_level (split (r'.0 - lv) r'.2 r'.1 lv) r'.1 lv)

-- The search of `free` along a free list for the buddy, from the node `p` on, with fuel: `*list`
-- ends at the buddy or at the null pointer. Returns the place whose link leads there, 0 for the
-- list's head, and whether the buddy was found.
pub seek : ℕ → Words → ℕ → ℕ → ℕ → Run (ℕ × Bool)
seek zero w buddy place p = fault
seek (suc k) w buddy place p = elim (p == 0) [
  | true ↦ ok (place, false)
  | false ↦ elim (p == buddy) [ true ↦ ok (place, true) | false ↦ seek k w buddy p (w p) ]
]

-- `*list = (*list)->next`
pub unlink : Buddy → ℕ → ℕ → ℕ → Buddy
unlink s i place buddy =
    let after = s.memory.words buddy in
    if place == 0 then set_head s i after else write_word s place after

-- `end` is the first address past the kernel.
module _ (end : ℕ) where
  -- The loop of `free`, with fuel: `n` levels are left up to `maxlv`, at which the page goes back.
  -- `walk` is the fuel of each search.
  pub free_loop : ℕ → ℕ → Buddy → ℕ → ℕ → Run Buddy
  free_loop zero walk s block i =
      Pages.free end s.memory block >>= λ m. ok (record s { memory = m })
  free_loop (suc n) walk s block i =
      let buddy = get_buddy block i in
      seek walk s.memory.words buddy 0 (s.freelist i) >>= λ r. elim (r.1) [
        | false ↦ ok (push s i block)
        | true ↦
            free_loop n walk (unlink s i r.0 buddy) (if ltb block buddy then block else buddy)
              (i + 1)
      ]

  -- `free(pa)`: the level is the first byte of the header.
  pub free : ℕ → Buddy → ℕ → Run Buddy
  free walk s pa =
      let block = pa - 8 in
      let i = s.memory.words block % 256 in
      if ltb max_level i then fault else free_loop (max_level - i) walk s block i
