-- ===== src/Fs/Pipe/Read.antt =====
-- What a stretch of `read` does to the queue and to the task's memory.
use startos.Prelude.{
  ℕ, zero, suc, ◌+◌, ◌%◌, ◌^◌, ◌<◌, if◌then◌else◌, ◌&&◌, ◌≡◌, refl, sym, ◌∙◌, ap, Bool, true, false,
  Option, none, some, List, [], ◌∷◌, arith, Bool-cases, Option-cases, inl, inr,
}
use startos.Fs.Pipe.{
  Pipe, Ending, returns, fails, sleeps, on_nread, on_nwrite, is_empty, front, advance, read_loop,
  read,
}
use startos.Fs.Pipe.Queue.{IsPipe, contents, occupancy, is_empty-eq, advance-IsPipe, front-contents}

none_left : (p : Pipe) → IsPipe p → is_empty p ≡ true → contents p ≡ []
none_left p h e =
    let none_in : occupancy p ≡ 0 = ground (arith, is_empty-eq p h, e) in rw none_in refl

module _ {User : Type 0} (copyin : User → ℕ → Option ℕ) (copyout : User → ℕ → ℕ → Option User)
    (killed : Bool) (addr : ℕ) where
  -- A reader of at most `k` bytes on a queue: the task's memory, the queue that is left and the count.
  -- The byte for an address that the task does not have leaves the queue and is not counted.
  abbrev pub deliver : ℕ → ℕ → User → List ℕ → User × List ℕ × ℕ
  deliver zero i user bs = (user, bs, i)
  deliver (suc k) i user [] = (user, [], i)
  deliver (suc k) i user (ch ∷ bs) = elim (copyout user ((addr + i) % 2 ^ 64) ch) [
    | none ↦ (user, bs, i)
    | some next ↦ deliver k (suc i) next bs
  ]

  abbrev queued : User × Pipe × ℕ → User × List ℕ × ℕ
  queued r = (r.0, contents r.1, r.2)

  read_loop-deliver :
      (k i : ℕ) (user : User) (p : Pipe)
      → IsPipe p
      → IsPipe (read_loop copyin copyout killed addr k i user p).1
        × (queued (read_loop copyin copyout killed addr k i user p) ≡ deliver k i user (contents p))
  read_loop-deliver zero i user p h = (h, refl)
  read_loop-deliver (suc k) i user p h = elim (Bool-cases (is_empty p)) [
    | inl e ↦ rw (e, none_left p h e) (h, refl)
    | inr e ↦
        (let some_in : 0 < occupancy p = ground (arith, is_empty-eq p h, e) in
          elim (Option-cases (copyout user ((addr + i) % 2 ^ 64) (front p))) [
            | inl n ↦
                rw (e, front-contents p h some_in, deliver, n) (advance-IsPipe p h some_in, refl)
            | inr s ↦
                rw (e, front-contents p h some_in, deliver, s.1)
                  (read_loop-deliver k (suc i) s.0 (advance p) (advance-IsPipe p h some_in))
          ])
  ]

  abbrev is_nil : List ℕ → Bool
  is_nil [] = true
  is_nil (_ ∷ _) = false

  abbrev returned : User × List ℕ × ℕ → User × List ℕ × Ending
  returned r = (r.0, r.1, record { outcome = returns r.2; woken = on_nwrite ∷ [] })

  -- A stretch of `read` on a queue: with nothing to read and writers about, it fails or sleeps.
  abbrev pub queue_read : Bool → ℕ → User → List ℕ → User × List ℕ × Ending
  queue_read write_open n user bs =
      if is_nil bs && write_open
      then (user, bs, record { outcome = if killed then fails else sleeps on_nread 0; woken = [] })
      else returned (deliver n 0 user bs)

  is_empty-is_nil : (p : Pipe) → IsPipe p → is_empty p ≡ is_nil (contents p)
  is_empty-is_nil p h = elim (Bool-cases (is_empty p)) [
    | inl e ↦ rw (e, none_left p h e) refl
    | inr e ↦
        (let some_in : 0 < occupancy p = ground (arith, is_empty-eq p h, e) in
          rw (e, front-contents p h some_in) refl)
  ]

  -- A stretch of `read` is the queue's: what reaches the task's memory, what stays in the ring and how
  -- the call ends depend on the queue alone, and the ring stays well formed.
  pub read-queue_read :
      (user : User) (n : ℕ) (p : Pipe)
      → IsPipe p
      → let r = read copyin copyout killed addr user n p in
        IsPipe r.1 × ((r.0, contents r.1, r.2) ≡ queue_read p.write_open n user (contents p))
  unfolding read
  read-queue_read user n p h = elim (Bool-cases (is_empty p && p.write_open)) [
    | inl e ↦
        (let q : (is_nil (contents p) && p.write_open) ≡ true =
            ap (λ b. b && p.write_open) (sym (is_empty-is_nil p h)) ∙ e in
          rw (e, q) (h, refl))
    | inr e ↦
        (let q : (is_nil (contents p) && p.write_open) ≡ false =
            ap (λ b. b && p.write_open) (sym (is_empty-is_nil p h)) ∙ e in
          let done = read_loop-deliver n 0 user p h in rw (e, q) (done.0, ap returned done.1))
  ]
