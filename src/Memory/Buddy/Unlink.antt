-- ===== src/Memory/Buddy/Unlink.antt =====
-- `free` of kernel/memory/BuddyAllocator.cpp: looking for the buddy on the free list of its level, and
-- taking it off.
use startos.Prelude.{
  ℕ, zero, suc, ◌+◌, ◌≤◌, ◌<◌, ◌==◌, Bool, true, false, ◌≡◌, ◌≢◌, ◌⊎◌, inl, inr, refl, sym, subst,
  List, [], ◌∷◌, length, count, erase, arith, ◌∙◌, Bool-cases, ne→==_false, All, All-erase,
}
use startos.Prelude.Run.{ok}
use startos.Memory.{Words, store}
use startos.Memory.Pages.Invariant.{Chain, Chain-frame}
use startos.Memory.Buddy.{Buddy, set_head, write_word, seek, unlink}
use startos.Memory.Buddy.Cover.{
  inside, covers-erase, Levels, update, at_update, cover, cover-update, count-le-covers,
  covers-le-cover, two_levels-le-cover,
}
use startos.Memory.Buddy.Blocks.{IsBlock, Sound}

pub Chain-ne_null : (w : Words) (p a : ℕ) (xs : List ℕ) → Chain w p xs → 1 ≤ count a xs → a ≢ 0
Chain-ne_null w p a [] c h = absurd (omega arith)
Chain-ne_null w p a (x ∷ xs) c h = elim (Bool-cases (x == a)) [
  | inl e ↦ (let same : x ≡ a = ground arith in subst (λ t. t ≢ 0) same c.1)
  | inr e ↦ Chain-ne_null w (w x) a xs c.2 (rw e at h)
]

-- The link at `q` is the one to change: that which led to the chain, or a node's inside the chain.
abbrev pub Removes : Words → ℕ → List ℕ → ℕ → ℕ → ℕ → Type 0
Removes w p xs place buddy q =
    ((q ≡ place) × (p ≡ buddy))
    ⊎ ((1 ≤ count q xs) × Chain (store w q (w buddy)) p (erase buddy xs))

-- What a search does.
pub record Sought (k : ℕ) (w : Words) (buddy place p : ℕ) (xs : List ℕ) : Type 0 where
  pub stop : ℕ
  pub found : Bool
  pub run : seek k w buddy place p ≡ ok (stop, found)
  pub absent : found ≡ false → count buddy xs ≡ 0
  pub present : found ≡ true → (1 ≤ count buddy xs) × Removes w p xs place buddy stop

-- One node further on.
Removes-cons :
    (w : Words) (x : ℕ) (xs : List ℕ) (place buddy q : ℕ)
    → Chain w x (x ∷ xs)
    → ((a : ℕ) → count a (x ∷ xs) ≤ 1)
    → (x == buddy) ≡ false
    → 1 ≤ count buddy xs
    → Removes w (w x) xs x buddy q
    → Removes w x (x ∷ xs) place buddy q
Removes-cons w x [] place buddy q c once ne is (inl (at, next)) = absurd (omega arith)
Removes-cons w x (y ∷ xs) place buddy q c once ne is (inl (at, next)) =
    let here : y ≡ buddy = sym c.2.0 ∙ next in
    let hit : (y == buddy) ≡ true = ground arith in
    let self : (x == q) ≡ true = ground arith in
    let rest : Chain w (w buddy) xs = subst (λ t. Chain w (w t) xs) here c.2.2 in
    inr (
      ground arith,
      rw (ne, hit)
          (refl, c.1, rw self (Chain-frame w (store w q (w buddy)) (w buddy) xs rest spared)),
    )
  where
    spared : (a : ℕ) → 1 ≤ count a xs → store w q (w buddy) a ≡ w a
    spared a i = rw (ne→==_false a q λ e. twice a i (e ∙ at))
      where
        twice : (a : ℕ) → 1 ≤ count a xs → a ≢ x
        twice a i e =
            absurd (
              let there : 1 ≤ count x xs = subst (λ t. 1 ≤ count t xs) e i in
              ground (arith, once x))
Removes-cons w x xs place buddy q c once ne is (inr (member, chain)) =
    let differs : x ≢ q = λ e. absurd (ground (arith, once q)) in
    inr (ground arith, rw ne (refl, c.1, rw (ne→==_false x q differs) chain))

-- The search at a node, from the search behind it.
Sought-cons :
    (k : ℕ) (w : Words) (buddy place x : ℕ) (xs : List ℕ)
    → Chain w x (x ∷ xs)
    → ((a : ℕ) → count a (x ∷ xs) ≤ 1)
    → Sought k w buddy x (w x) xs
    → Sought (suc k) w buddy place x (x ∷ xs)
unfolding seek
Sought-cons k w buddy place x xs c once rest =
    let miss : (x == 0) ≡ false = ne→==_false x 0 c.1 in
    elim (Bool-cases (x == buddy)) [
      | inl e ↦ record {
        stop = place;
        found = true;
        run = rw (miss, seek) (rw e);
        absent = λ t. cc;
        present = λ _. (ground arith, inl (refl, ground arith));
      }
      | inr e ↦ record {
        stop = rest.stop;
        found = rest.found;
        run = rw (miss, seek) (rw e rest.run);
        absent = λ t. ground (arith, rest.absent t);
        present = λ t.
            let (is, removes) = rest.present t in
            (ground arith, Removes-cons w x xs place buddy rest.stop c once e is removes);
      }
    ]

pub seek-Sought :
    (k : ℕ) (w : Words) (buddy place p : ℕ) (xs : List ℕ)
    → Chain w p xs
    → ((a : ℕ) → count a xs ≤ 1)
    → length xs < k
    → Sought k w buddy place p xs
unfolding seek
seek-Sought zero w buddy place p xs c once fuel = absurd (omega arith)
seek-Sought (suc k) w buddy place p [] c once fuel = record {
  stop = place;
  found = false;
  run = rw c;
  absent = λ _. refl;
  present = λ e. cc;
}
seek-Sought (suc k) w buddy place p (x ∷ xs) c once fuel =
    let rest = seek-Sought k w buddy x (w x) xs c.2 (λ a. ground (arith, once a)) (omega arith) in
    subst (λ t. Sought (suc k) w buddy place t (x ∷ xs)) (sym c.0)
      (Sought-cons k w buddy place x xs (refl, c.1, c.2) once rest)

Chain-erase_head :
    (w : Words) (p buddy : ℕ) (xs : List ℕ)
    → Chain w p xs
    → p ≡ buddy
    → 1 ≤ count buddy xs
    → Chain w (w buddy) (erase buddy xs)
Chain-erase_head w p buddy [] c e is = absurd (omega arith)
Chain-erase_head w p buddy (x ∷ xs) c e is =
    let same : x ≡ buddy = sym c.0 ∙ e in
    let hit : (x == buddy) ≡ true = ground arith in rw hit (subst (λ t. Chain w (w t) xs) same c.2)

-- The parts of a sound state that `unlink` does not touch.
module _ (end : ℕ) (s : Buddy) (bs : Levels) (ps : List ℕ) (i buddy : ℕ) (h : Sound end s bs ps)
    (le : i ≤ 12) (is : 1 ≤ count buddy (bs i)) where
  rest_blocks : (j : ℕ) → j ≤ 12 → All (IsBlock end j) (update bs i (erase buddy (bs i)) j)
  rest_blocks j lj =
      at_update (λ t l. All (IsBlock end t) l) i (erase buddy (bs i)) bs j
        (All-erase (IsBlock end i) buddy (bs i) (h.blocks i le)) (h.blocks j lj)

  pub cover-unlink :
      (a : ℕ) → cover (update bs i (erase buddy (bs i))) a + inside i buddy a ≡ cover bs a
  cover-unlink a =
      omega (arith, cover-update i bs (erase buddy (bs i)) a le, covers-erase i buddy a (bs i) is)

  -- A node of the list of level `i` is on no other list.
  other_node :
      (q j a : ℕ) → 1 ≤ count q (bs i) → j ≤ 12 → (j == i) ≡ false → 1 ≤ count a (bs j) → a ≢ q
  other_node q j a member lj e here same = absurd (
      let there : 1 ≤ count q (bs j) = subst (λ t. 1 ≤ count t (bs j)) same here in
      let ne : j ≢ i = ground arith in
      omega (
        arith,
        count-le-covers i q (bs i),
        count-le-covers j q (bs j),
        two_levels-le-cover j i bs q lj le ne,
        h.disjoint q,
      ))

  other_page : (q a : ℕ) → 1 ≤ count q (bs i) → 1 ≤ count a ps → a ≢ q
  other_page q a member here same = absurd (
      let there : 1 ≤ count q ps = subst (λ t. 1 ≤ count t ps) same here in
      omega (
        arith,
        count-le-covers i q (bs i),
        count-le-covers 12 q ps,
        covers-le-cover i bs q le,
        h.disjoint q,
      ))

-- Taking the buddy off the list of level `i`.
pub unlink-Sound :
    (end : ℕ) (s : Buddy) (bs : Levels) (ps : List ℕ) (i q buddy : ℕ)
    → Sound end s bs ps
    → i ≤ 12
    → 1 ≤ count buddy (bs i)
    → Removes s.memory.words (s.freelist i) (bs i) 0 buddy q
    → Sound end (unlink s i q buddy) (update bs i (erase buddy (bs i))) ps
unfolding unlink set_head write_word
unlink-Sound end s bs ps i q buddy h le is (inl (at, next)) =
    let head : (q == 0) ≡ true = ground arith in
    rw head (record {
      chains = λ j lj. elim (Bool-cases (j == i)) [
        | inl e ↦
            rw e
              (Chain-erase_head s.memory.words (s.freelist i) buddy (bs i) (h.chains i le) next is)
        | inr e ↦ rw e (h.chains j lj)
      ];
      blocks = rest_blocks end s bs ps i buddy h le is;
      pages = h.pages;
      disjoint = λ a. omega (arith, h.disjoint a, cover-unlink end s bs ps i buddy h le is a);
    })
unlink-Sound end s bs ps i q buddy h le is (inr (member, chain)) =
    let w' : Words = store s.memory.words q (s.memory.words buddy) in
    let inner : (q == 0) ≡ false =
      ne→==_false q 0
        (Chain-ne_null s.memory.words (s.freelist i) q (bs i) (h.chains i le) member) in
    rw inner (record {
      chains = λ j lj. elim (Bool-cases (j == i)) [
        | inl e ↦
            let same : i ≡ j = ground arith in
            rw e (subst (λ t. Chain w' (s.freelist t) (erase buddy (bs i))) same chain)
        | inr e ↦ rw e (
            Chain-frame s.memory.words w' (s.freelist j) (bs j) (h.chains j lj) λ a here.
              rw (ne→==_false a q (other_node end s bs ps i buddy h le is q j a member lj e here)))
      ];
      blocks = rest_blocks end s bs ps i buddy h le is;
      pages = record {
        chain =
            Chain-frame s.memory.words w' s.memory.free_list ps h.pages.chain λ a here.
              rw (ne→==_false a q (other_page end s bs ps i buddy h le is q a member here));
        pages = h.pages.pages;
        once = h.pages.once;
        counted = h.pages.counted;
      };
      disjoint = λ a. omega (arith, h.disjoint a, cover-unlink end s bs ps i buddy h le is a);
    })
