-- ===== src/Fs/Console/Line.antt =====
-- The buffer of kernel/device/Console.cpp as the queue of the characters typed and not read.
use startos.Prelude.{
  ℕ, zero, suc, ◌+◌, ◌-◌, ◌%◌, ◌≤◌, ◌<◌, ◌==◌, if◌then◌else◌, ◌||◌, Bool, true, false, ◌≡◌, inl,
  inr, refl, sym, ap, ◌∙◌, List, [], ◌∷◌, ◌++◌, length, get_or, take, length-append, length-take,
  get_or-take, arith, Bool-cases, ne→==_false,
}
use startos.Fs.Console.{
  Console, Effect, keep, erase_last, console_intr, Ending, returned, asleep, read_loop,
}

-- The unread characters are `q`.
pub record Unread (s : Console) (q : List ℕ) : Type 0 where
  pub span : s.write_index ≡ s.read_index + length q
  pub fits : length q ≤ 128
  pub kept : (i : ℕ) → i < length q → s.buf ((s.read_index + i) % 128) ≡ get_or q i 0

abbrev pub drop_last : List ℕ → List ℕ
drop_last q = take (length q - 1) q

-- What a typed character does to the queue.
abbrev pub typed : ℕ → List ℕ → List ℕ
typed c q =
    if c == 8 || c == 127
    then drop_last q
    else if c == 16
    then q
    else if c == 126
    then q
    else if c == 36
    then q
    else if c == 35
    then q
    else q ++ (if c == 13 then 10 else c) ∷ []

-- What a reader of `n` bytes takes: up to the end of a line.
abbrev pub line : ℕ → List ℕ → List ℕ
line zero q = []
line (suc n) [] = []
line (suc n) (c ∷ q) = let rest = line n q in if c == 10 then c ∷ [] else c ∷ rest

get_or-snoc :
    (q : List ℕ) (c i : ℕ)
    → i < suc (length q)
    → get_or (q ++ c ∷ []) i 0 ≡ (if i == length q then c else get_or q i 0)
get_or-snoc [] c zero h = refl
get_or-snoc [] c (suc i) h = absurd (omega arith)
get_or-snoc (x ∷ q) c zero h = rw (ne→==_false 0 (suc (length q)) (omega arith)) refl
get_or-snoc (x ∷ q) c (suc i) h =
    get_or-snoc q c i (omega arith)
    ∙ ap (λ (b : Bool). if b then c else get_or q i 0) (same i (length q))
  where
    same : (i n : ℕ) → (i == n) ≡ (suc i == suc n)
    same i n = ground arith

keep-Unread :
    (s : Console) (q : List ℕ) (c : ℕ)
    → Unread s q
    → length q < 128
    → Unread (keep s c).0 (q ++ c ∷ [])
keep-Unread s q c u room =
    let longer = length-append q (c ∷ []) in
    record {
      span = omega (arith, u.span, longer);
      fits = omega (arith, longer);
      kept = λ i b. elim (Bool-cases (i == length q)) [
        | inl e ↦
            (let at_end : (((s.read_index + i) % 128) == (s.write_index % 128)) ≡ true =
                ground (arith, u.span) in
              rw at_end (sym (get_or-snoc q c i (omega (arith, longer)) ∙ rw e refl)))
        | inr e ↦
            (let before : i < length q = ground (arith, longer) in
              let elsewhere : (((s.read_index + i) % 128) == (s.write_index % 128)) ≡ false =
                ne→==_false _ _ (omega (arith, u.span)) in
              rw elsewhere
                (u.kept i before ∙ sym (get_or-snoc q c i (omega (arith, longer)) ∙ rw e refl)))
      ];
    }

erase-Unread : (s : Console) (q : List ℕ) → Unread s q → Unread (erase_last s).0 (drop_last q)
erase-Unread s q u = elim (Bool-cases (s.read_index == s.write_index)) [
  | inl e ↦
      (let empty : length q ≡ 0 = ground (arith, u.span) in
        let short = length-take (length q - 1) q (omega arith) in
        rw e (record {
          span = omega (arith, u.span, short);
          fits = omega (arith, short);
          kept = λ i b. absurd (omega (arith, short));
        }))
  | inr e ↦
      (let some : 1 ≤ length q = ground (arith, u.span) in
        let short = length-take (length q - 1) q (omega arith) in
        rw e (record {
          span = omega (arith, u.span, short);
          fits = omega (arith, u.fits, short);
          kept = λ i b.
              u.kept i (omega (arith, short))
              ∙ sym (get_or-take (length q - 1) q i 0 (omega (arith, short)));
        }))
]

-- The code and the queue branch on one test.
branch :
    (b : Bool) (x y : Console × List Effect) (p r : List ℕ)
    → Unread x.0 p
    → Unread y.0 r
    → Unread (if b then x else y).0 (if b then p else r)
branch true x y p r here there = here
branch false x y p r here there = there

-- With room in the buffer, the interrupt does to the unread characters what typing means: a backspace
-- takes the last one off, the keys of the debug output leave them, any other character comes last.
pub console_intr-Unread :
    (s : Console) (q : List ℕ) (c : ℕ)
    → Unread s q
    → length q < 128
    → Unread (console_intr s c).0 (typed c q)
unfolding console_intr
console_intr-Unread s q c u room = branch (c == 8 || c == 127) _ _ _ _ (erase-Unread s q u) (
    branch (c == 16) _ _ _ _ u (
      branch (c == 126) _ _ _ _ u (
        branch (c == 36) _ _ _ _ u
          (branch (c == 35) _ _ _ _ u (keep-Unread s q (if c == 13 then 10 else c) u room)))))

-- The last character ends a line.
abbrev pub ends_line : List ℕ → Bool
ends_line [] = false
ends_line (c ∷ []) = c == 10
ends_line (c ∷ d ∷ q) = ends_line (d ∷ q)

-- How the stretch of a reader of `n` bytes ends that took `t`: back when there are `n` bytes or a
-- line has ended, with the count out of `expect`, and asleep with the rest to come otherwise.
abbrev pub ending_of : ℕ → ℕ → List ℕ → Ending
ending_of n expect t =
    if (length t == n) || ends_line t
    then returned (expect - (n - length t))
    else asleep (n - length t)

-- What a reader's stretch takes, leaves and ends with.
pub record Reading (n expect : ℕ) (q : List ℕ) (r : Ending × Console × List ℕ) : Type 0 where
  pub left : List ℕ
  pub taken : r.2 ≡ line n q
  pub order : q ≡ r.2 ++ left
  pub unread : Unread r.1 left
  pub ending : r.0 ≡ ending_of n expect (line n q)

ending_of-cons :
    (n expect c : ℕ) (t : List ℕ)
    → (c == 10) ≡ false
    → ending_of n expect t ≡ ending_of (suc n) expect (c ∷ t)
ending_of-cons n expect c [] e = rw e (ground arith)
ending_of-cons n expect c (d ∷ t) e =
    let same : (length (d ∷ t) == n) ≡ (suc (length (d ∷ t)) == suc n) = ground arith in
    let rest : n - length (d ∷ t) ≡ suc n - suc (length (d ∷ t)) = omega arith in
    ap
      (λ (b : Bool).
        if b || ends_line (d ∷ t)
        then returned (expect - (n - length (d ∷ t)))
        else asleep (n - length (d ∷ t)))
      same
    ∙ ap
        (λ (m : ℕ).
          if (suc (length (d ∷ t)) == suc n) || ends_line (d ∷ t)
          then returned (expect - m)
          else asleep m)
        rest

module _ (copyout : ℕ → ℕ → Bool) (open_range : (dst c : ℕ) → copyout dst c ≡ true) where
  front-Unread :
      (s : Console) (c : ℕ) (q : List ℕ)
      → Unread s (c ∷ q)
      → Unread (record s { read_index = s.read_index + 1 }) q × (s.buf (s.read_index % 128) ≡ c)
  front-Unread s c q u =
      let no_shift : s.read_index + 0 ≡ s.read_index = omega arith in
      (
        record {
          span = omega (arith, u.span);
          fits = omega (arith, u.fits);
          kept = λ i b.
              let there : s.read_index + 1 + i ≡ s.read_index + suc i = omega arith in
              ap (λ (k : ℕ). s.buf (k % 128)) there ∙ u.kept (suc i) (omega arith);
        },
        ap (λ (k : ℕ). s.buf (k % 128)) (sym no_shift) ∙ u.kept 0 (omega arith),
      )

  takes_line :
      (n : ℕ) (s : Console) (dst expect : ℕ) (q : List ℕ)
      → Unread s q
      → Reading n expect q (read_loop copyout s dst expect n)
  unfolding read_loop
  takes_line zero s dst expect q u = record {
    left = q;
    taken = refl;
    order = refl;
    unread = u;
    ending = ap returned (omega arith);
  }
  takes_line (suc n) s dst expect [] u =
      let empty : (s.read_index == s.write_index) ≡ true = ground (arith, u.span) in
      rw empty (record {
        left = [];
        taken = refl;
        order = refl;
        unread = u;
        ending = rw (ne→==_false 0 (suc n) (omega arith)) (ap asleep (omega arith));
      })
  takes_line (suc n) s dst expect (c ∷ q) u =
      let some : (s.read_index == s.write_index) ≡ false = ground (arith, u.span) in
      let (after, got) = front-Unread s c q u in
      let rest =
        takes_line n (record s { read_index = s.read_index + 1 }) (dst + 1) expect q after in
      elim (Bool-cases (c == 10)) [
        | inl e ↦
            rw (some, got, open_range dst c, e)
              (record {
                left = q;
                taken = rw e refl;
                order = refl;
                unread = after;
                ending = rw e (ground arith);
              })
        | inr e ↦
            rw (some, got, open_range dst c, e)
              (record {
                left = rest.left;
                taken = rw e (ap (λ t. c ∷ t) rest.taken);
                order = ap (λ t. c ∷ t) rest.order;
                unread = rest.unread;
                ending = rw e (rest.ending ∙ ending_of-cons n expect c (line n q) e);
              })
      ]

-- A reader that may write to its buffer takes the unread characters in their order, up to `n` or up
-- to a newline, which it takes too; it returns how many of `expect` that makes when it has `n` or a
-- newline, and sleeps, with the rest still to come, when the characters run out before; what it has
-- not taken stays unread.
pub read_loop-Reading :
    (copyout : ℕ → ℕ → Bool)
    → ((dst c : ℕ) → copyout dst c ≡ true)
    → (n : ℕ) (s : Console) (dst expect : ℕ) (q : List ℕ) → Unread s q
    → Reading n expect q (read_loop copyout s dst expect n)
read_loop-Reading copyout open_range n s dst expect q u =
    takes_line copyout open_range n s dst expect q u
