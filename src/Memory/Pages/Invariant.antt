-- ===== src/Memory/Pages/Invariant.antt =====
-- The free list of kernel/memory/MemAllocator.cpp as a list of pages, which `alloc` and `free` keep.
use startos.Prelude.{
  ℕ, ◌+◌, ◌-◌, ◌%◌, ◌^◌, ◌≤◌, ◌<◌, ◌==◌, true, ◌≡◌, ◌≢◌, ◌⊎◌, refl, sym, subst, List, [], ◌∷◌,
  length, count, All, All-count, arith, ne→==_false,
}
use startos.Prelude.Run.{ok, panic}
use startos.Memory.{Words, phystop, store, junk, junk_page}
use startos.Memory.Pages.{Memory, alloc, bad_page, free}

-- From `p` the links lead through the pages `xs` to the null pointer.
abbrev pub Chain : Words → ℕ → List ℕ → Type 0
Chain w p [] = p ≡ 0
Chain w p (x ∷ xs) = (p ≡ x) × (x ≢ 0) × Chain w (w x) xs

-- A chain survives any change that spares its own links.
pub Chain-frame :
    (w w' : Words) (p : ℕ) (xs : List ℕ)
    → Chain w p xs
    → ((a : ℕ) → 1 ≤ count a xs → w' a ≡ w a)
    → Chain w' p xs
Chain-frame w w' p [] c same = c
Chain-frame w w' p (x ∷ xs) c same =
    let here : w' x ≡ w x = same x (ground arith) in
    (c.0, c.1, rw here (Chain-frame w w' (w x) xs c.2 (λ a i. same a (ground arith))))

-- A page that the allocator may hold: aligned, and between the kernel's end and the top of memory.
pub record IsPage (end pa : ℕ) : Type 0 where
  pub aligned : pa % 4096 ≡ 0
  pub above : end ≤ pa
  pub below : pa < phystop

-- The allocator holds exactly the pages `xs`, each once.
pub record Holds (end : ℕ) (s : Memory) (xs : List ℕ) : Type 0 where
  pub chain : Chain s.words s.free_list xs
  pub pages : All (IsPage end) xs
  pub once : (a : ℕ) → count a xs ≤ 1
  pub counted : s.npage ≡ length xs % 2 ^ 32

-- Two pages are the same or do not meet.
pub apart : (end x y a : ℕ) → IsPage end x → IsPage end y → x ≢ y → x ≤ a → a < x + 4096 → a ≢ y
apart end x y a p q ne lo hi = omega arith

junk_page-outside :
    (end : ℕ) (w : Words) (x y : ℕ) → IsPage end x → IsPage end y → x ≢ y → junk_page w x y ≡ w y
junk_page-outside end w x y p q ne = ground (arith, apart end x y y p q ne)

-- An empty allocator returns the null pointer and changes nothing.
pub alloc-nil : (end : ℕ) (s : Memory) → Holds end s [] → alloc s ≡ (0, s)
unfolding alloc
alloc-nil end s h = ground arith

-- What `alloc` does when there is a page.
pub record Allocated (end : ℕ) (s : Memory) (x : ℕ) (xs : List ℕ) (r : ℕ × Memory) : Type 0 where
  pub page : r.0 ≡ x
  pub rest : Holds end r.1 xs
  pub filled : (a : ℕ) → x ≤ a → a < x + 4096 → r.1.words a ≡ junk
  pub same : (a : ℕ) → (a < x) ⊎ (x + 4096 ≤ a) → r.1.words a ≡ s.words a
  pub total : r.1.total_page ≡ s.total_page

alloc-eq :
    (s : Memory) (x : ℕ)
    → s.free_list ≡ x
    → x ≢ 0
    → alloc s ≡ (
      x,
      record s {
        words = junk_page s.words x;
        free_list = s.words x;
        npage = (s.npage + 2 ^ 32 - 1) % 2 ^ 32;
      },
    )
unfolding alloc
alloc-eq s x e ne = rw (ne→==_false s.free_list 0 (rw e ne)) (cc)

-- `alloc` takes the first page of the list, fills it with junk, writes nowhere else, and holds
-- the other pages.
pub alloc-cons :
    (end : ℕ) (s : Memory) (x : ℕ) (xs : List ℕ)
    → Holds end s (x ∷ xs)
    → Allocated end s x xs (alloc s)
alloc-cons end s x xs h =
    let (at_head, ne, rest) = h.chain in
    rw (alloc-eq s x at_head ne) (record {
      page = refl;
      rest = record {
        chain = Chain-frame s.words (junk_page s.words x) (s.words x) xs rest λ a i.
            junk_page-outside end s.words x a h.pages.0 (All-count (IsPage end) a xs h.pages.1 i)
              (λ same. once_there a i same);
        pages = h.pages.1;
        once = λ a. ground (arith, h.once a);
        counted = omega (arith, h.counted);
      };
      filled = λ a lo hi. ground arith;
      same = λ a out. ground arith;
      total = refl;
    })
  where
    once_there : (a : ℕ) → 1 ≤ count a xs → x ≢ a
    once_there a i same = ground (arith, h.once a)

-- `free` refuses exactly what is not a page of the kernel's range.
pub free-panic :
    (end : ℕ) (s : Memory) (pa : ℕ)
    → (pa % 4096 ≢ 0) ⊎ ((pa < end) ⊎ (phystop ≤ pa))
    → free end s pa ≡ panic
unfolding free bad_page
free-panic end s pa h = ground arith

-- What `free` does with a page.
pub record Freed (end : ℕ) (s : Memory) (pa : ℕ) (xs : List ℕ) (s' : Memory) : Type 0 where
  pub returned : free end s pa ≡ ok s'
  pub holds : Holds end s' (pa ∷ xs)
  pub same : (a : ℕ) → (a < pa) ⊎ (pa + 4096 ≤ a) → s'.words a ≡ s.words a
  pub total : s'.total_page ≡ s.total_page

-- `free` of a page that is not in the list succeeds, puts it at the head of the list and writes
-- only inside it.
pub free_lem :
    (end : ℕ) (s : Memory) (pa : ℕ) (xs : List ℕ)
    → Holds end s xs
    → 0 < end
    → IsPage end pa
    → count pa xs ≡ 0
    → (s' : Memory) × Freed end s pa xs s'
unfolding free bad_page
free_lem end s pa xs h pos ok_page new = (
  record s {
    words = store (junk_page s.words pa) pa s.free_list;
    free_list = pa;
    npage = (s.npage + 1) % 2 ^ 32;
  },
  record {
    returned = ground (arith, ok_page.aligned, ok_page.above, ok_page.below);
    holds = record {
      chain = (
        refl,
        omega (arith, ok_page.above),
        rw (self pa) (Chain-frame s.words _ s.free_list xs h.chain (λ a i. spared a i)),
      );
      pages = (ok_page, h.pages);
      once = λ a. ground (arith, h.once a);
      counted = omega (arith, h.counted);
    };
    same = λ a out. ground arith;
    total = refl;
  },
)
  where
    self : (pa : ℕ) → (pa == pa) ≡ true
    self pa = ground arith

    differs : (a : ℕ) → 1 ≤ count a xs → pa ≢ a
    differs a i e =
        absurd (let zero_here : count a xs ≡ 0 = subst (λ t. count t xs ≡ 0) e new in omega arith)

    spared : (a : ℕ) → 1 ≤ count a xs → store (junk_page s.words pa) pa s.free_list a ≡ s.words a
    spared a i =
        let q : IsPage end a = All-count (IsPage end) a xs h.pages i in
        let out : junk_page s.words pa a ≡ s.words a =
          junk_page-outside end s.words pa a ok_page q (differs a i) in
        rw (ne→==_false a pa (λ e. differs a i (sym e)), out)
