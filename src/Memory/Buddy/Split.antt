-- ===== src/Memory/Buddy/Split.antt =====
-- `alloc` of kernel/memory/BuddyAllocator.cpp: halving a block down to the level asked for.
use startos.Prelude.{
  ℕ, zero, suc, ◌+◌, ◌-◌, ◌*◌, ◌/◌, ◌^◌, ◌≤◌, ◌<◌, ◌≡◌, ◌≢◌, sym, subst, List, ◌∷◌, arith, ap, ◌∙◌,
  bit_xor,
}
use startos.Prelude.Bits.{toggle_even, pow_add}
use native.Mathlib.Nat.{one-le-pow, pow-suc, div-div-eq-div-mul, div-eq_of_lt-le}
use startos.Memory.Pages.Invariant.{IsPage}
use startos.Memory.Buddy.{Buddy, push, get_buddy, split}
use startos.Memory.Buddy.Cover.{inside, Levels, update, cover}
use startos.Memory.Buddy.Blocks.{IsBlock, Sound, Outside, push-Sound, cover-push}

-- A double block is its two halves.
pub inside-halves : (k b a : ℕ) → inside k b a + inside k (b + 2 ^ k) a ≡ inside (suc k) b a
inside-halves k b a = ground (arith, pow-suc 2 k, one-le-pow k 2)

page_of : (i m a : ℕ) → i ≤ 12 → m * 2 ^ i ≤ a → a < m * 2 ^ i + 2 ^ i → a / 4096 ≡ m / 2 ^ (12 - i)
page_of i m a le lo hi =
    let sum : i + (12 - i) ≡ 12 = omega arith in
    let whole : 2 ^ i * 2 ^ (12 - i) ≡ 4096 =
      sym (pow_add i (12 - i)) ∙ ap (λ (t : ℕ). 2 ^ t) sum in
    let quot : a / 2 ^ i ≡ m = div-eq_of_lt-le (2 ^ i) lo (omega arith) in
    ap (λ (t : ℕ). a / t) (sym whole)
    ∙ sym (div-div-eq-div-mul a (2 ^ i) (2 ^ (12 - i)))
    ∙ ap (λ (t : ℕ). t / 2 ^ (12 - i)) quot

-- A block of at most a page stays inside its page.
pub same_page :
    (i m a : ℕ) → i ≤ 12 → m * 2 ^ i ≤ a → a < m * 2 ^ i + 2 ^ i → a / 4096 ≡ m * 2 ^ i / 4096
same_page i m a le lo hi =
    page_of i m a le lo hi
    ∙ sym (page_of i m (m * 2 ^ i) le (omega arith) (omega (arith, one-le-pow i 2)))

-- The halves of a block: the lower one is the block's address, and the upper one is its buddy.
module _ (end k b : ℕ) (le : suc k ≤ 12) (is : IsBlock end (suc k) b) where
  even : b ≡ 2 * is.multiple * 2 ^ k
  even = omega (arith, is.aligned, ap (λ (t : ℕ). is.multiple * t) (pow-suc 2 k))

  pub buddy_above : get_buddy b k ≡ b + 2 ^ k
  unfolding get_buddy
  buddy_above =
      ap (λ (t : ℕ). bit_xor t (2 ^ k)) even ∙ toggle_even k is.multiple ∙ (omega (arith, even))

  pub lower : IsBlock end k b
  lower = record { multiple = 2 * is.multiple; aligned = even; page = is.page }

  pub upper : IsBlock end k (b + 2 ^ k)
  upper = record {
    multiple = 2 * is.multiple + 1;
    aligned = omega (arith, even);
    page = subst (λ t. IsPage end (t * 4096)) (sym in_page) is.page;
  }
    where
      in_page : (b + 2 ^ k) / 4096 ≡ b / 4096
      in_page =
          same_page (suc k) is.multiple (b + 2 ^ k) le (omega (arith, is.aligned))
            (omega (arith, is.aligned, pow-suc 2 k, one-le-pow k 2))
          ∙ ap (λ (t : ℕ). t / 4096) (sym is.aligned)

-- What halving does: the free blocks `bs'` and the block left at `b` hold what was free and the block.
pub record Halved (end : ℕ) (bs : Levels) (ps : List ℕ) (b from to : ℕ) (s' : Buddy) (bs' : Levels)
    : Type 0 where
  pub sound : Sound end s' bs' ps
  pub block : IsBlock end to b
  pub conserved : (a : ℕ) → cover bs' a + inside to b a ≡ cover bs a + inside from b a

pub split-Halved :
    (end n lv b : ℕ) (s : Buddy) (bs : Levels) (ps : List ℕ)
    → Sound end s bs ps
    → lv + n ≤ 12
    → b ≢ 0
    → IsBlock end (lv + n) b
    → Outside bs ps (lv + n) b
    → (bs' : Levels) × Halved end bs ps b (lv + n) lv (split n s b lv) bs'
unfolding split
split-Halved end zero lv b s bs ps h le ne is out =
    let same : lv + 0 ≡ lv = omega arith in
    (
      bs,
      record { sound = h; block = subst (λ t. IsBlock end t b) same is; conserved = λ a. rw same },
    )
split-Halved end (suc n) lv b s bs ps h le ne is out =
    let next : lv + suc n ≡ suc (lv + n) = omega arith in
    let is' : IsBlock end (suc (lv + n)) b = subst (λ t. IsBlock end t b) next is in
    let up = upper end (lv + n) b (omega arith) is' in
    let cut : (a : ℕ)
        → inside (lv + n) b a + inside (lv + n) (b + 2 ^ (lv + n)) a ≡ inside (lv + suc n) b a =
      λ a. rw next (inside-halves (lv + n) b a) in
    let bs1 = update bs (lv + n) ((b + 2 ^ (lv + n)) ∷ bs (lv + n)) in
    let s1 =
      push-Sound end s bs ps (lv + n) (b + 2 ^ (lv + n)) h (omega arith) (omega arith) up
        (λ a. omega (arith, out a, cut a)) in
    let (bs', done) =
      split-Halved end n lv b (push s (lv + n) (b + 2 ^ (lv + n))) bs1 ps s1 (omega arith) ne
        (lower end (lv + n) b (omega arith) is')
        (λ a.
          omega (arith, out a, cut a, cover-push bs (lv + n) (b + 2 ^ (lv + n)) a (omega arith))) in
    (
      bs',
      record {
        sound = rw (buddy_above end (lv + n) b (omega arith) is') done.sound;
        block = done.block;
        conserved = λ a. omega (
          arith,
          done.conserved a,
          cut a,
          cover-push bs (lv + n) (b + 2 ^ (lv + n)) a (omega arith),
        );
      },
    )
