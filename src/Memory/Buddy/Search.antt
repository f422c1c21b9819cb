-- ===== src/Memory/Buddy/Search.antt =====
-- The search of the table of lists in `alloc` of kernel/memory/BuddyAllocator.cpp, and the page taken
-- when it fails.
use startos.Prelude.{
  ℕ, zero, suc, ◌+◌, ◌/◌, ◌≤◌, ◌<◌, ◌==◌, ◌≡◌, ◌≢◌, ◌⊎◌, inl, inr, subst, List, [], ◌∷◌, count,
  arith, ap, ◌∙◌, Bool-cases, List-cases, All,
}
use native.Mathlib.Decide.{dec_lt}
use startos.Prelude.Run.{ok}
use startos.Memory.Pages
use startos.Memory.Pages.{Memory}
use startos.Memory.Pages.Invariant.{Chain, Chain-frame, IsPage, alloc-cons}
use startos.Memory.Buddy.{Buddy, set_head, find_block}
use startos.Memory.Buddy.Cover.{
  inside, covers, Levels, update, at_update, cover, cover-update, count-le-covers, covers-le-cover,
}
use startos.Memory.Buddy.Blocks.{IsBlock, Sound}

-- A state with a block of level `i` at `b` taken out of what `bs` and `ps` were.
pub record Taken (end : ℕ) (bs : Levels) (ps : List ℕ) (i b : ℕ) (s' : Buddy) (bs' : Levels)
    (ps' : List ℕ) : Type 0 where
  pub sound : Sound end s' bs' ps'
  pub block : IsBlock end i b
  pub ne_null : b ≢ 0
  pub conserved :
      (a : ℕ) → cover bs' a + covers 12 ps' a + inside i b a ≡ cover bs a + covers 12 ps a

-- The head of a list that is not empty.
pop-Taken :
    (end : ℕ) (s : Buddy) (bs : Levels) (ps : List ℕ) (i b : ℕ) (xs : List ℕ)
    → Sound end s bs ps
    → i ≤ 12
    → bs i ≡ b ∷ xs
    → Taken end bs ps i b (set_head s i (s.memory.words b)) (update bs i xs) ps
unfolding set_head
pop-Taken end s bs ps i b xs h le e =
    let c : Chain s.memory.words (s.freelist i) (b ∷ xs) = rw e at (h.chains i le) in
    let is : All (IsBlock end i) (b ∷ xs) = rw e at (h.blocks i le) in
    let kept : (a : ℕ) → cover (update bs i xs) a + inside i b a ≡ cover bs a = λ a.
      let whole : covers i (bs i) a ≡ covers i (b ∷ xs) a = ap (λ l. covers i l a) e in
      omega (arith, cover-update i bs xs a le) in
    record {
      sound = record {
        chains =
            λ j lj. elim (Bool-cases (j == i)) [ inl t ↦ rw t c.2 | inr t ↦ rw t (h.chains j lj) ];
        blocks = λ j lj. at_update (λ t l. All (IsBlock end t) l) i xs bs j is.1 (h.blocks j lj);
        pages = h.pages;
        disjoint = λ a. omega (arith, h.disjoint a, kept a);
      };
      block = is.0;
      ne_null = c.1;
      conserved = λ a. omega (arith, kept a);
    }

-- A whole page.
pub page-Taken :
    (end : ℕ) (s : Buddy) (bs : Levels) (x : ℕ) (xs : List ℕ)
    → Sound end s bs (x ∷ xs)
    → Taken end bs (x ∷ xs) 12 x (record s { memory = (Pages.alloc s.memory).1 }) bs xs
page-Taken end s bs x xs h =
    let a = alloc-cons end s.memory x xs h.pages in
    record {
      sound = record {
        chains = λ i le.
            Chain-frame s.memory.words _ (s.freelist i) (bs i) (h.chains i le)
              λ b here. a.same b (away i b le here);
        blocks = h.blocks;
        pages = a.rest;
        disjoint = λ b. omega (arith, h.disjoint b);
      };
      block = record {
        multiple = x / 4096;
        aligned = omega (arith, h.pages.pages.0.aligned);
        page = subst (IsPage end) (omega (arith, h.pages.pages.0.aligned)) h.pages.pages.0;
      };
      ne_null = h.pages.chain.1;
      conserved = λ b. omega arith;
    }
  where
    away : (i b : ℕ) → i ≤ 12 → 1 ≤ count b (bs i) → (b < x) ⊎ (x + 4096 ≤ b)
    away i b le here =
        ground (arith, h.disjoint b, count-le-covers i b (bs i), covers-le-cover i bs b le)

pub record Found (end : ℕ) (s : Buddy) (bs : Levels) (ps : List ℕ) (k i : ℕ) : Type 0 where
  pub level : ℕ
  pub address : ℕ
  pub state : Buddy
  pub rest : Levels
  pub run : find_block k s i ≡ ok (level, address, state)
  pub above : i ≤ level
  pub in_table : level ≤ 12
  pub taken : Taken end bs ps level address state rest ps

-- No list from level `i` up has a block.
pub record Missing (s : Buddy) (bs : Levels) (k i : ℕ) : Type 0 where
  pub run : find_block k s i ≡ ok (12, 0, s)
  pub empty : (j : ℕ) → i ≤ j → j ≤ 12 → bs j ≡ []

find_here :
    (k : ℕ) (s : Buddy) (i b : ℕ)
    → i ≤ 12
    → s.freelist i ≡ b
    → b ≢ 0
    → find_block (suc k) s i ≡ ok (i, b, set_head s i (s.memory.words b))
unfolding find_block
find_here k s i b le e ne = ground arith

find_at_top :
    (k : ℕ) (s : Buddy) (i : ℕ) → i ≡ 12 → s.freelist i ≡ 0 → find_block (suc k) s i ≡ ok (12, 0, s)
unfolding find_block
find_at_top k s i top e = ground arith

find_next :
    (k : ℕ) (s : Buddy) (i : ℕ)
    → i < 12
    → s.freelist i ≡ 0
    → find_block (suc k) s i ≡ find_block k s (i + 1)
unfolding find_block
find_next k s i low e = ground arith

pub find_block-cases :
    (end : ℕ) (s : Buddy) (bs : Levels) (ps : List ℕ) (k i : ℕ)
    → Sound end s bs ps
    → i ≤ 12
    → 13 ≤ i + k
    → Found end s bs ps k i ⊎ Missing s bs k i
find_block-cases end s bs ps zero i h le fuel = absurd (omega arith)
find_block-cases end s bs ps (suc k) i h le fuel = elim (List-cases (bs i)) [
  | inr (b, xs, e) ↦
      let c : Chain s.memory.words (s.freelist i) (b ∷ xs) = rw e at (h.chains i le) in
      inl (record {
        level = i;
        address = b;
        state = set_head s i (s.memory.words b);
        rest = update bs i xs;
        run = find_here k s i b le c.0 c.1;
        above = omega arith;
        in_table = le;
        taken = pop-Taken end s bs ps i b xs h le e;
      })
  | inl e ↦
      let c : s.freelist i ≡ 0 = rw e at (h.chains i le) in
      elim (dec_lt i 12) [
        | no top ↦ inr (record {
          run = find_at_top k s i (omega arith) c;
          empty = λ j lo hi. let same : i ≡ j = omega arith in subst (λ t. bs t ≡ []) same e;
        })
        | yes low ↦ elim (find_block-cases end s bs ps k (i + 1) h (omega arith) (omega arith)) [
          | inl f ↦ inl (record {
            level = f.level;
            address = f.address;
            state = f.state;
            rest = f.rest;
            run = find_next k s i low c ∙ f.run;
            above = omega (arith, f.above);
            in_table = f.in_table;
            taken = f.taken;
          })
          | inr m ↦ inr (record {
            run = find_next k s i low c ∙ m.run;
            empty = λ j lo hi. elim (dec_lt i j) [
              | yes past ↦ m.empty j (omega arith) hi
              | no at ↦ (let same : i ≡ j = omega arith in subst (λ t. bs t ≡ []) same e)
            ];
          })
        ]
      ]
]
