-- ===== src/Memory/Buddy/Merge.antt =====
-- `free` of kernel/memory/BuddyAllocator.cpp: the loop that joins a block with its buddy, level by level.
use startos.Prelude.{
  ℕ, zero, suc, ◌+◌, ◌-◌, ◌*◌, ◌/◌, ◌%◌, ◌^◌, ◌≤◌, ◌<◌, ◌==◌, ltb, if◌then◌else◌, Bool, true, false,
  ◌≡◌, ◌≢◌, ◌⊎◌, inl, inr, sym, subst, List, [], ◌∷◌, length, count, erase, arith, ap, ◌∙◌,
  Bool-cases, bit_xor,
}
use startos.Prelude.Bits.{toggle_even, toggle_odd}
use native.Mathlib.Nat.{one-le-pow, pow-suc}
use startos.Prelude.Run.{Run, ok}
use startos.Memory.Pages.Invariant.{Chain-frame, IsPage, free_lem}
use startos.Memory.Buddy.{Buddy, push, get_buddy, seek, unlink, free_loop, free}
use startos.Memory.Buddy.Cover.{
  inside, covers, Levels, update, cover, count-le-covers, covers-le-cover,
}
use startos.Memory.Buddy.Blocks.{IsBlock, Sound, Outside, own_address, push-Sound, cover-push}
use startos.Memory.Buddy.Split.{inside-halves, same_page}
use startos.Memory.Buddy.Unlink.{seek-Sought, Chain-ne_null, unlink-Sound, cover-unlink}

-- The lower of a block and its buddy is the double block.
record Joined (end i block : ℕ) : Type 0 where
  double : IsBlock end (suc i) (if ltb block (get_buddy block i) then block else get_buddy block i)
  whole :
      (a : ℕ)
      → inside i block a + inside i (get_buddy block i) a
        ≡ inside (suc i) (if ltb block (get_buddy block i) then block else get_buddy block i) a

even_or_odd : (m : ℕ) → ((q : ℕ) × (m ≡ 2 * q)) ⊎ ((q : ℕ) × (m ≡ 2 * q + 1))
even_or_odd m = elim (Bool-cases (m % 2 == 0)) [
  | inl e ↦ inl (m / 2, ground arith)
  | inr e ↦ inr (m / 2, ground arith)
]

join-Joined : (end i block : ℕ) → suc i ≤ 12 → IsBlock end i block → Joined end i block
unfolding get_buddy
join-Joined end i block le is = elim (even_or_odd is.multiple) [
  | inl (q, e) ↦
      let here : block ≡ 2 * q * 2 ^ i = is.aligned ∙ ap (λ (t : ℕ). t * 2 ^ i) e in
      let buddy : bit_xor block (2 ^ i) ≡ block + 2 ^ i =
        ap (λ (t : ℕ). bit_xor t (2 ^ i)) here ∙ toggle_even i q ∙ omega (arith, here) in
      let low : ltb block (block + 2 ^ i) ≡ true = ground (arith, one-le-pow i 2) in
      record {
        double =
            rw (buddy, low)
              (record {
                multiple = q;
                aligned = omega (arith, here, ap (λ (t : ℕ). q * t) (pow-suc 2 i));
                page = is.page;
              });
        whole = λ a. rw (buddy, low) (inside-halves i block a);
      }
  | inr (q, e) ↦
      let here : block ≡ (2 * q + 1) * 2 ^ i = is.aligned ∙ ap (λ (t : ℕ). t * 2 ^ i) e in
      let buddy : bit_xor block (2 ^ i) ≡ 2 * q * 2 ^ i =
        ap (λ (t : ℕ). bit_xor t (2 ^ i)) here ∙ toggle_odd i q in
      let high : ltb block (2 * q * 2 ^ i) ≡ false = ground (arith, one-le-pow i 2) in
      let up : 2 * q * 2 ^ i + 2 ^ i ≡ block = omega (arith, here) in
      let aligned : 2 * q * 2 ^ i ≡ q * 2 ^ suc i =
        omega (arith, ap (λ (t : ℕ). q * t) (pow-suc 2 i)) in
      let page : block / 4096 ≡ 2 * q * 2 ^ i / 4096 =
        same_page (suc i) q block le (omega (arith, here))
          (omega (arith, here, pow-suc 2 i, one-le-pow i 2))
        ∙ ap (λ (t : ℕ). t / 4096) (sym aligned) in
      record {
        double =
            rw (buddy, high)
              (record {
                multiple = q;
                aligned = aligned;
                page = subst (λ t. IsPage end (t * 4096)) page is.page;
              });
        whole = λ a.
            rw (buddy, high)
              (omega (arith, inside-halves i (2 * q * 2 ^ i) a, ap (λ (t : ℕ). inside i t a) up));
      }
]

-- What `free` leaves, given that it returns: what was free and the block, no more and no less.
pub record Merged (end : ℕ) (bs : Levels) (ps : List ℕ) (i block : ℕ) (result : Run Buddy)
    : Type 0 where
  pub state : Buddy
  pub rest : Levels
  pub rest_pages : List ℕ
  pub returned : result ≡ ok state
  pub sound : Sound end state rest rest_pages
  pub conserved :
      (a : ℕ)
      → cover rest a + covers 12 rest_pages a ≡ cover bs a + covers 12 ps a + inside i block a

-- A whole page goes back to the page allocator.
page-Merged :
    (end walk : ℕ) (s : Buddy) (bs : Levels) (ps : List ℕ) (block : ℕ)
    → 0 < end
    → Sound end s bs ps
    → IsBlock end 12 block
    → Outside bs ps 12 block
    → Merged end bs ps 12 block (free_loop end zero walk s block 12)
unfolding free_loop
page-Merged end walk s bs ps block pos h is out =
    let page : IsPage end block = subst (IsPage end) (omega (arith, is.aligned)) is.page in
    let new : count block ps ≡ 0 =
      omega (arith, own_address bs ps 12 block out, count-le-covers 12 block ps) in
    let (m, f) = free_lem end s.memory block ps h.pages pos page new in
    record {
      state = record s { memory = m };
      rest = bs;
      rest_pages = block ∷ ps;
      returned = rw f.returned;
      sound = record {
        chains = λ i le.
            Chain-frame s.memory.words m.words (s.freelist i) (bs i) (h.chains i le)
              λ b here. f.same b (away i b le here);
        blocks = h.blocks;
        pages = f.holds;
        disjoint = λ a. omega (arith, out a);
      };
      conserved = λ a. omega arith;
    }
  where
    away : (i b : ℕ) → i ≤ 12 → 1 ≤ count b (bs i) → (b < block) ⊎ (block + 4096 ≤ b)
    away i b le here = ground (arith, out b, count-le-covers i b (bs i), covers-le-cover i bs b le)

-- No list is longer than a search may go.
abbrev pub Short : Levels → ℕ → Type 0
Short bs walk = (j : ℕ) → j ≤ 12 → length (bs j) < walk

length-erase : (b : ℕ) (xs : List ℕ) → length (erase b xs) ≤ length xs
length-erase b [] = omega arith
length-erase b (x ∷ xs) = ground (arith, length-erase b xs)

Short-erase :
    (bs : Levels) (walk i b : ℕ)
    → i ≤ 12
    → Short bs walk
    → Short (update bs i (erase b (bs i))) walk
Short-erase bs walk i b le h j lj = elim (Bool-cases (j == i)) [
  | inl e ↦ rw e (omega (arith, length-erase b (bs i), h i le))
  | inr e ↦ rw e (h j lj)
]

-- One round of the loop, for each outcome of the search.
module _ (end n walk i : ℕ) (s : Buddy) (block stop : ℕ) where
  absent_round :
      (found : Bool)
      → seek walk s.memory.words (get_buddy block i) 0 (s.freelist i) ≡ ok (stop, found)
      → found ≡ false
      → free_loop end (suc n) walk s block i ≡ ok (push s i block)
  unfolding free_loop
  absent_round found run e = rw run (rw e)

  present_round :
      (found : Bool)
      → seek walk s.memory.words (get_buddy block i) 0 (s.freelist i) ≡ ok (stop, found)
      → found ≡ true
      → free_loop end (suc n) walk s block i
        ≡ free_loop end n walk
            (unlink s i stop (get_buddy block i))
            (if ltb block (get_buddy block i) then block else get_buddy block i)
            (i + 1)
  unfolding free_loop
  present_round found run e = rw run (rw e)

either_ne : (c : Bool) (x y : ℕ) → x ≢ 0 → y ≢ 0 → (if c then x else y) ≢ 0
either_ne true x y p q = p
either_ne false x y p q = q

free_loop-Merged :
    (end n walk i : ℕ) (s : Buddy) (bs : Levels) (ps : List ℕ) (block : ℕ)
    → 0 < end
    → i + n ≡ 12
    → Sound end s bs ps
    → Short bs walk
    → block ≢ 0
    → IsBlock end i block
    → Outside bs ps i block
    → Merged end bs ps i block (free_loop end n walk s block i)
free_loop-Merged end zero walk i s bs ps block pos e h short ne is out =
    let top : 12 ≡ i = omega arith in
    subst (λ t. Merged end bs ps t block (free_loop end zero walk s block t)) top
      (page-Merged end walk s bs ps block pos h (subst (λ t. IsBlock end t block) (sym top) is)
        (subst (λ t. Outside bs ps t block) (sym top) out))
free_loop-Merged end (suc n) walk i s bs ps block pos e h short ne is out =
    let le : i ≤ 12 = omega arith in
    let buddy = get_buddy block i in
    let once : (a : ℕ) → count a (bs i) ≤ 1 =
      λ a. omega (arith, count-le-covers i a (bs i), covers-le-cover i bs a le, h.disjoint a) in
    let k =
      seek-Sought walk s.memory.words buddy 0 (s.freelist i) (bs i) (h.chains i le) once
        (short i le) in
    elim (Bool-cases k.found) [
      | inr absent ↦ record {
        state = push s i block;
        rest = update bs i (block ∷ bs i);
        rest_pages = ps;
        returned = absent_round end n walk i s block k.stop k.found k.run absent;
        sound = push-Sound end s bs ps i block h le ne is out;
        conserved = λ a. omega (arith, cover-push bs i block a le);
      }
      | inl present ↦
          let (there, removes) = k.present present in
          let joined = join-Joined end i block (omega arith) is in
          let s' = unlink s i k.stop buddy in
          let bs' = update bs i (erase buddy (bs i)) in
          let h' = unlink-Sound end s bs ps i k.stop buddy h le there removes in
          let kept = cover-unlink end s bs ps i buddy h le there in
          let b' = if ltb block buddy then block else buddy in
          let merged =
            free_loop-Merged end n walk (suc i) s' bs' ps b' pos (omega arith) h'
              (Short-erase bs walk i buddy le short)
              (either_ne (ltb block buddy) block buddy ne
                (Chain-ne_null s.memory.words (s.freelist i) buddy (bs i) (h.chains i le) there))
              joined.double (λ a. omega (arith, out a, kept a, joined.whole a)) in
          let next : i + 1 ≡ suc i = omega arith in
          record {
            state = merged.state;
            rest = merged.rest;
            rest_pages = merged.rest_pages;
            returned =
                present_round end n walk i s block k.stop k.found k.run present
                ∙ ap (λ (t : ℕ). free_loop end n walk s' b' t) next
                ∙ merged.returned;
            sound = merged.sound;
            conserved = λ a. omega (arith, merged.conserved a, kept a, joined.whole a);
          }
    ]

-- `free` of a block that `alloc` gave, whose header still holds its level, returns, and leaves free
-- exactly what was free and the block, whatever it was joined with; `walk` bounds the searches.
pub free-Merged :
    (end walk lv : ℕ) (s : Buddy) (bs : Levels) (ps : List ℕ) (block : ℕ)
    → 0 < end
    → lv ≤ 12
    → Sound end s bs ps
    → Short bs walk
    → block ≢ 0
    → IsBlock end lv block
    → Outside bs ps lv block
    → s.memory.words block % 256 ≡ lv
    → Merged end bs ps lv block (free end walk s (block + 8))
unfolding free
free-Merged end walk lv s bs ps block pos le h short ne is out header =
    let at : block + 8 - 8 ≡ block = omega arith in
    let low : ltb 12 lv ≡ false = ground arith in
    rw (at, header, low)
      (free_loop-Merged end (12 - lv) walk lv s bs ps block pos (omega arith) h short ne is out)
