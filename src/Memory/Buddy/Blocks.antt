-- ===== src/Memory/Buddy/Blocks.antt =====
-- The free lists of kernel/memory/BuddyAllocator.cpp as lists of blocks, beside the pages that
-- `MemAllocator` holds: what a well-formed state is, and that putting a block on a list keeps it so.
use startos.Prelude.{
  ℕ, ◌+◌, ◌*◌, ◌/◌, ◌^◌, ◌≤◌, ◌==◌, ◌≡◌, ◌≢◌, refl, subst, List, ◌∷◌, count, All, arith, Bool-cases,
  inl, inr, ne→==_false, true,
}
use native.Mathlib.Nat.{one-le-pow}
use startos.Memory.Pages.Invariant.{Chain, Chain-frame, IsPage, Holds}
use startos.Memory.Buddy.{Buddy, write_word, set_head, push}
use startos.Memory.Buddy.Cover.{
  inside, covers, Levels, update, at_update, cover, cover-update, count-le-covers, covers-le-cover,
}

-- A block of level `i` stands at a multiple of its size, inside one page of the kernel's range.
pub record IsBlock (end i b : ℕ) : Type 0 where
  pub multiple : ℕ
  pub aligned : b ≡ multiple * 2 ^ i
  pub page : IsPage end (b / 4096 * 4096)

-- The free blocks are `bs` and the free pages `ps`; no address is in two of them.
pub record Sound (end : ℕ) (s : Buddy) (bs : Levels) (ps : List ℕ) : Type 0 where
  pub chains : (i : ℕ) → i ≤ 12 → Chain s.memory.words (s.freelist i) (bs i)
  pub blocks : (i : ℕ) → i ≤ 12 → All (IsBlock end i) (bs i)
  pub pages : Holds end s.memory ps
  pub disjoint : (a : ℕ) → cover bs a + covers 12 ps a ≤ 1

-- No free block and no free page holds an address of the block of level `i` at `b`.
abbrev pub Outside : Levels → List ℕ → ℕ → ℕ → Type 0
Outside bs ps i b = (a : ℕ) → cover bs a + covers 12 ps a + inside i b a ≤ 1

pub own_address :
    (bs : Levels) (ps : List ℕ) (i b : ℕ) → Outside bs ps i b → cover bs b + covers 12 ps b ≡ 0
own_address bs ps i b out = ground (arith, out b, one-le-pow i 2)

-- A write to an address that no free block and no free page holds.
module _ (end : ℕ) (s : Buddy) (bs : Levels) (ps : List ℕ) (h : Sound end s bs ps) (x v : ℕ)
    (free_here : cover bs x + covers 12 ps x ≡ 0) where
  not_block : (i a : ℕ) → i ≤ 12 → 1 ≤ count a (bs i) → a ≢ x
  not_block i a le here same = absurd (
      let at_x : 1 ≤ count x (bs i) = subst (λ t. 1 ≤ count t (bs i)) same here in
      omega (arith, count-le-covers i x (bs i), covers-le-cover i bs x le))

  not_page : (a : ℕ) → 1 ≤ count a ps → a ≢ x
  not_page a here same = absurd (
      let at_x : 1 ≤ count x ps = subst (λ t. 1 ≤ count t ps) same here in
      omega (arith, count-le-covers 12 x ps))

  pub write_word-Sound : Sound end (write_word s x v) bs ps
  unfolding write_word
  write_word-Sound = record {
    chains = λ i le.
        Chain-frame s.memory.words _ (s.freelist i) (bs i) (h.chains i le)
          λ a here. rw (ne→==_false a x (not_block i a le here));
    blocks = h.blocks;
    pages = record {
      chain =
          Chain-frame s.memory.words _ s.memory.free_list ps h.pages.chain
            λ a here. rw (ne→==_false a x (not_page a here));
      pages = h.pages.pages;
      once = h.pages.once;
      counted = h.pages.counted;
    };
    disjoint = h.disjoint;
  }

pub cover-push :
    (bs : Levels) (i b a : ℕ)
    → i ≤ 12
    → cover (update bs i (b ∷ bs i)) a ≡ cover bs a + inside i b a
cover-push bs i b a le = omega (arith, cover-update i bs (b ∷ bs i) a le)

-- Putting a block that nothing free overlaps on the list of its level.
pub push-Sound :
    (end : ℕ) (s : Buddy) (bs : Levels) (ps : List ℕ) (i b : ℕ)
    → Sound end s bs ps
    → i ≤ 12
    → b ≢ 0
    → IsBlock end i b
    → Outside bs ps i b
    → Sound end (push s i b) (update bs i (b ∷ bs i)) ps
unfolding push set_head write_word
push-Sound end s bs ps i b h le ne is out =
    let here : (b == b) ≡ true = ground arith in
    let w = write_word-Sound end s bs ps h b (s.freelist i) (own_address bs ps i b out) in
    record {
      chains = λ j lj. elim (Bool-cases (j == i)) [
        | inl e ↦ rw e (refl, ne, rw here (w.chains i le))
        | inr e ↦ rw e (w.chains j lj)
      ];
      blocks = λ j lj.
          at_update (λ t xs. All (IsBlock end t) xs) i (b ∷ bs i) bs j (is, h.blocks i le)
            (h.blocks j lj);
      pages = w.pages;
      disjoint = λ a. omega (arith, out a, cover-push bs i b a le);
    }
