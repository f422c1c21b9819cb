-- ===== src/Memory/Pages/Clients.antt =====
-- The kernel's clients of the page allocator, as sequences of steps: a client takes a page, gives one
-- of its pages back, or writes into one of its pages.
use startos.Prelude.{
  ℕ, ◌+◌, ◌≤◌, ◌<◌, ◌≡◌, ◌≢◌, refl, sym, subst, List, [], ◌∷◌, count, erase, count-erase, All,
  All-count, All-erase, arith, ne→==_false, ◌∙◌, ap,
}
use startos.Prelude.Run.{ok}
use startos.Memory.{store}
use startos.Memory.Pages.{Memory, alloc, free}
use startos.Memory.Pages.Invariant.{
  Chain-frame, IsPage, Holds, alloc-nil, alloc-cons, free_lem, apart,
}

-- The allocator and the pages that clients own.
pub record World : Type 0 where
  pub memory : Memory
  pub owned : List ℕ

alloc-none : (s : Memory) → (alloc s).0 ≡ 0 → (alloc s).1 ≡ s
unfolding alloc
alloc-none s e = ground arith

module _ (end : ℕ) where
  pub data Step (w : World) : World → Type 0 where
    take :
        (alloc w.memory).0 ≢ 0
        → Step w (record { memory = (alloc w.memory).1; owned = (alloc w.memory).0 ∷ w.owned })
    deny : (alloc w.memory).0 ≡ 0 → Step w (record w { memory = (alloc w.memory).1 })
    give :
        (pa : ℕ) (m : Memory)
        → 1 ≤ count pa w.owned
        → free end w.memory pa ≡ ok m
        → Step w (record { memory = m; owned = erase pa w.owned })
    write :
        (pa a v : ℕ)
        → 1 ≤ count pa w.owned
        → pa ≤ a
        → a < pa + 4096
        → Step w (record w { memory = record (w.memory) { words = store w.memory.words a v } })

  pub data Steps (w : World) : World → Type 0 where
    here : Steps w w
    next : {u v : World} → Steps w u → Step u v → Steps w v

  -- The pages `xs` are free, and no page is free and owned at once, or owned twice.
  pub record Sound (w : World) (xs : List ℕ) : Type 0 where
    pub holds : Holds end w.memory xs
    pub pages : All (IsPage end) w.owned
    pub disjoint : (a : ℕ) → count a xs + count a w.owned ≤ 1

  -- The free pages `ys` after a step from free pages `xs`: as sound, and with every page still there.
  pub record Kept (w : World) (xs : List ℕ) (v : World) (ys : List ℕ) : Type 0 where
    pub sound : Sound v ys
    pub conserved : (a : ℕ) → count a ys + count a v.owned ≡ count a xs + count a w.owned

  Sound-take :
      (w : World) (xs : List ℕ)
      → Sound w xs
      → (alloc w.memory).0 ≢ 0
      → (ys : List ℕ) × Kept w xs
          (record { memory = (alloc w.memory).1; owned = (alloc w.memory).0 ∷ w.owned })
          ys
  Sound-take w [] s got = absurd (got (ap (λ r. r.0) (alloc-nil end w.memory s.holds)))
  Sound-take w (x ∷ xs) s got =
      let a = alloc-cons end w.memory x xs s.holds in
      (
        xs,
        record {
          sound = record {
            holds = a.rest;
            pages = (rw a.page s.holds.pages.0, s.pages);
            disjoint = λ b. rw a.page (ground (arith, s.disjoint b));
          };
          conserved = λ b. rw a.page (ground arith);
        },
      )

  Sound-give :
      (w : World) (xs : List ℕ) (pa : ℕ) (m : Memory)
      → 0 < end
      → Sound w xs
      → 1 ≤ count pa w.owned
      → free end w.memory pa ≡ ok m
      → Kept w xs (record { memory = m; owned = erase pa w.owned }) (pa ∷ xs)
  Sound-give w xs pa m pos s mine e =
      let p : IsPage end pa = All-count (IsPage end) pa w.owned s.pages mine in
      let (m', f) = free_lem end w.memory pa xs s.holds pos p (omega (arith, s.disjoint pa)) in
      let same : m' ≡ m = cc (e, f.returned) in
      record {
        sound = record {
          holds = subst (λ t. Holds end t (pa ∷ xs)) same f.holds;
          pages = All-erase (IsPage end) pa w.owned s.pages;
          disjoint = λ b. ground (arith, s.disjoint b, count-erase pa b w.owned mine);
        };
        conserved = λ b. ground (arith, count-erase pa b w.owned mine);
      }

  Sound-write :
      (w : World) (xs : List ℕ) (pa a v : ℕ)
      → Sound w xs
      → 1 ≤ count pa w.owned
      → pa ≤ a
      → a < pa + 4096
      → Kept w xs (record w { memory = record (w.memory) { words = store w.memory.words a v } }) xs
  Sound-write w xs pa a v s mine lo hi = record {
    sound = record {
      holds = record {
        chain =
            Chain-frame w.memory.words (store w.memory.words a v) w.memory.free_list xs
              s.holds.chain λ b i. spared b i;
        pages = s.holds.pages;
        once = s.holds.once;
        counted = s.holds.counted;
      };
      pages = s.pages;
      disjoint = s.disjoint;
    };
    conserved = λ b. refl;
  }
    where
      spared : (b : ℕ) → 1 ≤ count b xs → store w.memory.words a v b ≡ w.memory.words b
      spared b i =
          let p = All-count (IsPage end) pa w.owned s.pages mine in
          let q = All-count (IsPage end) b xs s.holds.pages i in
          let ne : pa ≢ b = λ e. absurd (
            let twice : 1 ≤ count pa xs = subst (λ t. 1 ≤ count t xs) (sym e) i in
            omega (arith, s.disjoint pa)) in
          rw (ne→==_false b a (λ e. apart end pa b a p q ne lo hi (sym e)))

  Step-Kept :
      {w v : World} (xs : List ℕ) → 0 < end → Sound w xs → Step w v → (ys : List ℕ) × Kept w xs v ys
  Step-Kept {w} xs pos s (take got) = Sound-take w xs s got
  Step-Kept {w} xs pos s (deny none_left) =
      (xs, rw (alloc-none w.memory none_left) (record { sound = s; conserved = λ b. refl }))
  Step-Kept {w} xs pos s (give pa m mine e) = (pa ∷ xs, Sound-give w xs pa m pos s mine e)
  Step-Kept {w} xs pos s (write pa a v mine lo hi) = (xs, Sound-write w xs pa a v s mine lo hi)

-- From a sound start, any sequence of clients' steps ends sound, whatever they write into their
-- pages: the free list is intact, no page is free and owned or owned twice, and no page is lost.
pub Steps-Kept :
    (end : ℕ) {w v : World} (xs : List ℕ)
    → 0 < end
    → Sound end w xs
    → Steps end w v
    → (ys : List ℕ) × Kept end w xs v ys
Steps-Kept end xs pos s here = (xs, record { sound = s; conserved = λ b. refl })
Steps-Kept end xs pos s (next r st) =
    let (ys, before) = Steps-Kept end xs pos s r in
    let (zs, after) = Step-Kept end ys pos before.sound st in
    (zs, record { sound = after.sound; conserved = λ b. after.conserved b ∙ before.conserved b })
