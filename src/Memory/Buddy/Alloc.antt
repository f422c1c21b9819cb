-- ===== src/Memory/Buddy/Alloc.antt =====
-- `alloc` of kernel/memory/BuddyAllocator.cpp: the search, the halving and the header, together.
use startos.Prelude.{
  ℕ, ◌+◌, ◌-◌, ◌%◌, ◌^◌, ◌≤◌, ◌<◌, ◌≡◌, ◌≢◌, ◌⊎◌, inl, inr, sym, subst, List, [], ◌∷◌, arith, ap,
  List-cases, ne→==_false,
}
use startos.Prelude.Run.{ok, panic}
use startos.Memory.Pages
use startos.Memory.Pages.{Memory}
use startos.Memory.Pages.Invariant.{Holds, alloc-nil, alloc-cons}
use startos.Memory.Buddy.{
  Buddy, write_word, split, find_block, take_page, set_level, alloc, calc_level,
}
use startos.Memory.Buddy.Level.{IsLevel, calc_level-IsLevel}
use startos.Memory.Buddy.Cover.{inside, covers, Levels, cover}
use startos.Memory.Buddy.Blocks.{IsBlock, Sound, own_address, write_word-Sound}
use startos.Memory.Buddy.Split.{split-Halved}
use startos.Memory.Buddy.Search.{Taken, page-Taken, find_block-cases}

-- What `alloc` returns: the address past the header of a block of the least level that holds the
-- request and the header, which is no longer free; nothing else has been lost or added.
pub record Given (end : ℕ) (s : Buddy) (bs : Levels) (ps : List ℕ) (sz : ℕ) : Type 0 where
  pub level : ℕ
  pub address : ℕ
  pub state : Buddy
  pub rest : Levels
  pub rest_pages : List ℕ
  pub returned : alloc s sz ≡ ok (address + 8, state)
  pub is_level : IsLevel (sz + 8) level
  pub block : IsBlock end level address
  pub header : state.memory.words address % 256 ≡ level
  pub sound : Sound end state rest rest_pages
  pub conserved :
      (a : ℕ)
      → cover rest a + covers 12 rest_pages a + inside level address a ≡ cover bs a + covers 12 ps a

header-set_level : (s : Buddy) (b lv : ℕ) → lv < 256 → (set_level s b lv).memory.words b % 256 ≡ lv
unfolding set_level write_word
header-set_level s b lv h = ground arith

set_level-Sound :
    (end : ℕ) (s : Buddy) (bs : Levels) (ps : List ℕ) (b lv : ℕ)
    → Sound end s bs ps
    → cover bs b + covers 12 ps b ≡ 0
    → Sound end (set_level s b lv) bs ps
unfolding set_level
set_level-Sound end s bs ps b lv h clear = write_word-Sound end s bs ps h b _ clear

-- From a taken block of a level that is high enough, the rest of `alloc`.
finish :
    (end : ℕ) (s : Buddy) (bs : Levels) (ps : List ℕ) (sz lv i b : ℕ) (s1 : Buddy) (bs1 : Levels)
    (ps1 : List ℕ)
    → Sound end s bs ps
    → Taken end bs ps i b s1 bs1 ps1
    → IsLevel (sz + 8) lv
    → lv ≤ i
    → i ≤ 12
    → alloc s sz ≡ ok (b + 8, set_level (split (i - lv) s1 b lv) b lv)
    → Given end s bs ps sz
finish end s bs ps sz lv i b s1 bs1 ps1 h t is lo hi run =
    let sum : lv + (i - lv) ≡ i = omega arith in
    let (bs2, half) =
      split-Halved end (i - lv) lv b s1 bs1 ps1 t.sound (omega arith) t.ne_null
        (subst (λ k. IsBlock end k b) (sym sum) t.block)
        (λ a. rw sum (omega (arith, t.conserved a, h.disjoint a))) in
    let all : (a : ℕ)
        → cover bs2 a + covers 12 ps1 a + inside lv b a ≡ cover bs a + covers 12 ps a =
      λ a.
        let c : cover bs2 a + inside lv b a ≡ cover bs1 a + inside i b a =
          subst (λ t. cover bs2 a + inside lv b a ≡ cover bs1 a + inside t b a) sum
            (half.conserved a) in
        omega (arith, t.conserved a) in
    let s2 = split (i - lv) s1 b lv in
    let clear : cover bs2 b + covers 12 ps1 b ≡ 0 =
      own_address bs2 ps1 lv b (λ a. omega (arith, all a, h.disjoint a)) in
    record {
      level = lv;
      address = b;
      state = set_level s2 b lv;
      rest = bs2;
      rest_pages = ps1;
      returned = run;
      is_level = is;
      block = half.block;
      header = header-set_level s2 b lv (omega arith);
      sound = set_level-Sound end s2 bs2 ps1 b lv half.sound clear;
      conserved = all;
    }

-- No list from the level of the request up has a block, and there is no page either.
pub record Exhausted (bs : Levels) (ps : List ℕ) (sz : ℕ) : Type 0 where
  pub level : ℕ
  pub is_level : IsLevel (sz + 8) level
  pub no_block : (j : ℕ) → level ≤ j → j ≤ 12 → bs j ≡ []
  pub no_page : ps ≡ []

level_in_table : (sz lv : ℕ) → sz ≤ 4088 → IsLevel (sz + 8) lv → lv ≤ 12
level_in_table sz lv small is = is.least 12 (omega arith) (omega arith)

module _ (s : Buddy) (sz lv : ℕ) (size : (sz + 8) % 2 ^ 64 ≡ sz + 8)
    (run : calc_level (sz + 8) ≡ ok lv) where
  alloc_found :
      (i b : ℕ) (s1 : Buddy)
      → find_block 13 s lv ≡ ok (i, b, s1)
      → b ≢ 0
      → alloc s sz ≡ ok (b + 8, set_level (split (i - lv) s1 b lv) b lv)
  unfolding alloc take_page
  alloc_found i b s1 found ne = rw (size, run) (rw found (rw (ne→==_false b 0 ne)))

  alloc_page :
      (x : ℕ)
      → find_block 13 s lv ≡ ok (12, 0, s)
      → (Pages.alloc s.memory).0 ≡ x
      → x ≢ 0
      → alloc s sz
        ≡ ok (
          x + 8,
          set_level (split (12 - lv) (record s { memory = (Pages.alloc s.memory).1 }) x lv) x lv,
        )
  unfolding alloc take_page
  alloc_page x missing page ne =
      rw (size, run)
        (rw missing (rw (ne→==_false (Pages.alloc s.memory).0 0 (rw page ne)) (rw page)))

  alloc_none :
      find_block 13 s lv ≡ ok (12, 0, s) → (Pages.alloc s.memory).0 ≡ 0 → alloc s sz ≡ panic
  unfolding alloc take_page
  alloc_none missing empty = rw (size, run) (rw missing (rw empty))

-- For a request of up to 4088 bytes `alloc` either returns a block as `Given` says, or stops the
-- kernel because no free block or page can hold the request; it never leaves its tables.
pub alloc-cases :
    (end : ℕ) (s : Buddy) (bs : Levels) (ps : List ℕ) (sz : ℕ)
    → Sound end s bs ps
    → sz ≤ 4088
    → Given end s bs ps sz ⊎ ((alloc s sz ≡ panic) × Exhausted bs ps sz)
alloc-cases end s bs ps sz h small =
    let size : (sz + 8) % 2 ^ 64 ≡ sz + 8 = omega arith in
    let (lv, run, is) = calc_level-IsLevel (sz + 8) (omega arith) in
    let le : lv ≤ 12 = level_in_table sz lv small is in
    elim (find_block-cases end s bs ps 13 lv h le (omega arith)) [
      | inl f ↦ inl (
          finish end s bs ps sz lv f.level f.address f.state f.rest ps h f.taken is f.above
            f.in_table
            (alloc_found s sz lv size run f.level f.address f.state f.run f.taken.ne_null))
      | inr m ↦ elim (List-cases ps) [
        | inl e ↦
            let empty : Holds end s.memory [] = subst (Holds end s.memory) e h.pages in
            inr (
              alloc_none s sz lv size run m.run (ap (λ r. r.0) (alloc-nil end s.memory empty)),
              record { level = lv; is_level = is; no_block = m.empty; no_page = e },
            )
        | inr (x, xs, e) ↦
            let h' : Sound end s bs (x ∷ xs) = subst (Sound end s bs) e h in
            let t = page-Taken end s bs x xs h' in
            let a = alloc-cons end s.memory x xs h'.pages in
            inl (
              finish end s bs ps sz lv 12 x (record s { memory = (Pages.alloc s.memory).1 }) bs xs h
                (subst
                  (λ l. Taken end bs l 12 x (record s { memory = (Pages.alloc s.memory).1 }) bs xs)
                  (sym e) t)
                is le (omega arith) (alloc_page s sz lv size run x m.run a.page t.ne_null))
      ]
    ]
