-- ===== src/Fs/Pipe/Calls.antt =====
-- The calls of `read` of kernel/fs/Pipe.cpp: what each one takes off the ring, what of it reaches the task
-- and what it says of it.
use startos.Prelude.{
  ℕ, zero, suc, ◌+◌, ◌%◌, ◌^◌, ◌≡◌, refl, sym, ap, ◌∙◌, Bool, true, false, Option, Option-cases,
  none, some, inl, inr, List, [], ◌∷◌, ◌++◌, append_assoc, length, All, ◌⊎◌, if◌then◌else◌, arith,
  subst,
}
use startos.Fs.Pipe.{Ending, Outcome, returns, fails, sleeps, on_nread, on_nwrite}
use startos.Fs.Pipe.Read.{deliver, queue_read}

-- A call of `read`: the task's memory before and after it, the bytes that reached it from `addr` on, the
-- byte that was taken off the ring and did not, if any, and how the call ended.
pub record ReadCall (User : Type 0) : Type 0 where
  pub addr : ℕ
  pub before : User
  pub got : List ℕ
  pub dropped : List ℕ
  pub after : User
  pub outcome : Outcome

-- All bytes that calls took off the ring.
abbrev pub bytes_of : {User : Type 0} → List (ReadCall User) → List ℕ
bytes_of [] = []
bytes_of (c ∷ cs) = (c.got ++ c.dropped) ++ bytes_of cs

pub bytes_of-append :
    {User : Type 0} (cs ds : List (ReadCall User))
    → bytes_of (cs ++ ds) ≡ bytes_of cs ++ bytes_of ds
bytes_of-append [] ds = refl
bytes_of-append (c ∷ cs) ds =
    ap (λ (t : List ℕ). (c.got ++ c.dropped) ++ t) (bytes_of-append cs ds)
    ∙ sym (append_assoc (c.got ++ c.dropped) (bytes_of cs) (bytes_of ds))

module _ {User : Type 0} (copyout : User → ℕ → ℕ → Option User) where
  -- Bytes stored one by one at the addresses from `addr + i` on, if all of them can be.
  abbrev pub store : ℕ → User → ℕ → List ℕ → Option User
  store addr user i [] = some user
  store addr user i (ch ∷ cs) = elim (copyout user ((addr + i) % 2 ^ 64) ch) [
    | none ↦ none
    | some next ↦ store addr next (suc i) cs
  ]

  -- No byte is dropped, or one, which could not be stored behind the `i` before it.
  abbrev pub Dropped : ℕ → User → ℕ → List ℕ → Type 0
  Dropped addr user i cs =
      (cs ≡ []) ⊎ ((ch : ℕ) × (cs ≡ ch ∷ []) × (copyout user ((addr + i) % 2 ^ 64) ch ≡ none))

  -- The memory after the call is that before it with the bytes got stored in it, one byte at most is
  -- dropped, and the result counts the bytes got; a call that fails or sleeps takes nothing.
  pub record Told (c : ReadCall User) : Type 0 where
    pub stored : store c.addr c.before 0 c.got ≡ some c.after
    pub lost : Dropped c.addr c.after (length c.got) c.dropped
    pub counted :
        (c.outcome ≡ returns (length c.got))
        ⊎ ((c.got ≡ [])
            × (c.dropped ≡ [])
            × ((c.outcome ≡ fails) ⊎ (c.outcome ≡ sleeps on_nread 0)))

  abbrev pub AllTold : List (ReadCall User) → Type 0
  AllTold cs = All Told cs

  pub AllTold-append : (cs ds : List (ReadCall User)) → AllTold cs → AllTold ds → AllTold (cs ++ ds)
  AllTold-append [] ds h t = t
  AllTold-append (c ∷ cs) ds (h, hs) t = (h, AllTold-append cs ds hs t)

  module _ (addr : ℕ) where
    -- The bytes that reach a reader of at most `k` bytes from a queue.
    abbrev pub got : ℕ → ℕ → User → List ℕ → List ℕ
    got zero i user bs = []
    got (suc k) i user [] = []
    got (suc k) i user (ch ∷ bs) = elim (copyout user ((addr + i) % 2 ^ 64) ch) [
      | none ↦ []
      | some next ↦ ch ∷ got k (suc i) next bs
    ]

    -- The byte that it takes off the queue behind them and that does not reach it.
    abbrev pub dropped : ℕ → ℕ → User → List ℕ → List ℕ
    dropped zero i user bs = []
    dropped (suc k) i user [] = []
    dropped (suc k) i user (ch ∷ bs) = elim (copyout user ((addr + i) % 2 ^ 64) ch) [
      | none ↦ ch ∷ []
      | some next ↦ dropped k (suc i) next bs
    ]

module _ {User : Type 0} (copyin : User → ℕ → Option ℕ) (copyout : User → ℕ → ℕ → Option User) where
  module _ (killed : Bool) (addr : ℕ) where
    -- What a reader takes off a queue, puts into memory and counts.
    record Delivered (k i : ℕ) (user : User) (bs : List ℕ) (r : User × List ℕ × ℕ) : Type 0 where
      pub queue : bs ≡ (got copyout addr k i user bs ++ dropped copyout addr k i user bs) ++ r.1
      pub stored : store copyout addr user i (got copyout addr k i user bs) ≡ some r.0
      pub count : r.2 ≡ i + length (got copyout addr k i user bs)
      pub lost : Dropped copyout addr r.0 r.2 (dropped copyout addr k i user bs)

    stored_first :
        (i : ℕ) (user : User) (ch : ℕ) (cs : List ℕ) (next : User)
        → copyout user ((addr + i) % 2 ^ 64) ch ≡ some next
        → store copyout addr user i (ch ∷ cs) ≡ store copyout addr next (suc i) cs
    stored_first i user ch cs next e = rw (store, e) refl

    deliver-Delivered :
        (k i : ℕ) (user : User) (bs : List ℕ)
        → Delivered k i user bs (deliver copyin copyout killed addr k i user bs)
    deliver-Delivered zero i user bs = record {
      queue = refl;
      stored = refl;
      count = omega arith;
      lost = inl refl;
    }
    deliver-Delivered (suc k) i user [] = record {
      queue = refl;
      stored = refl;
      count = omega arith;
      lost = inl refl;
    }
    deliver-Delivered (suc k) i user (ch ∷ bs) =
        elim (Option-cases (copyout user ((addr + i) % 2 ^ 64) ch)) [
          | inl n ↦ record {
            queue = rw (got, dropped, deliver, n) refl;
            stored = rw (got, deliver, n) refl;
            count = rw (got, deliver, n) (omega arith);
            lost = rw (dropped, deliver, n) (inr (ch, refl, n));
          }
          | inr s ↦
              let rest = deliver-Delivered k (suc i) s.0 bs in
              record {
                queue = rw (got, dropped, deliver, s.1) (ap (λ (t : List ℕ). ch ∷ t) rest.queue);
                stored = rw (got, deliver, s.1) (stored_first i user ch _ s.0 s.1 ∙ rest.stored);
                count = rw (got, deliver, s.1) (omega (arith, rest.count));
                lost = rw (dropped, deliver, s.1) rest.lost;
              }
        ]

    -- The call of `read` that a queue's answer makes.
    abbrev pub call_of : ℕ → User → List ℕ → User × List ℕ × Ending → ReadCall User
    call_of n user bs r = record {
      addr = addr;
      before = user;
      got = got copyout addr n 0 user bs;
      dropped = dropped copyout addr n 0 user bs;
      after = r.0;
      outcome = r.2.outcome;
    }

    -- A call that takes the bytes of `call_of` off a queue, and tells of them.
    unfoldable pub Called : ℕ → User → List ℕ → User × List ℕ × Ending → Type 0
    Called n user bs r =
        (bs ≡ (got copyout addr n 0 user bs ++ dropped copyout addr n 0 user bs) ++ r.1)
        × Told copyout (call_of n user bs r)

    deliver-Called :
        (n : ℕ) (user : User) (bs : List ℕ)
        → let r = deliver copyin copyout killed addr n 0 user bs in
          Called n user bs (r.0, r.1, record { outcome = returns r.2; woken = on_nwrite ∷ [] })
    unfolding Called
    deliver-Called n user bs =
        let d = deliver-Delivered n 0 user bs in
        let size : (deliver copyin copyout killed addr n 0 user bs).2
            ≡ length (got copyout addr n 0 user bs) =
          omega (arith, d.count) in
        (
          d.queue,
          record {
            stored = d.stored;
            lost =
                subst
                  (λ (m : ℕ).
                    Dropped copyout addr (deliver copyin copyout killed addr n 0 user bs).0 m
                      (dropped copyout addr n 0 user bs))
                  size d.lost;
            counted = inl (ap returns size);
          },
        )

    waiting :
        (n : ℕ) (user : User) (o : Outcome)
        → (o ≡ fails) ⊎ (o ≡ sleeps on_nread 0)
        → Called n user [] (user, [], record { outcome = o; woken = [] })
    unfolding Called
    waiting zero user o e =
        (refl, record { stored = refl; lost = inl refl; counted = inr (refl, refl, e) })
    waiting (suc n) user o e =
        (refl, record { stored = refl; lost = inl refl; counted = inr (refl, refl, e) })

    stopped :
        (b : Bool)
        → ((if b then fails else sleeps on_nread 0) ≡ fails)
          ⊎ ((if b then fails else sleeps on_nread 0) ≡ sleeps on_nread 0)
    stopped true = inl refl
    stopped false = inr refl

    pub queue_read-Called :
        (w : Bool) (n : ℕ) (user : User) (bs : List ℕ)
        → Called n user bs (queue_read copyin copyout killed addr w n user bs)
    queue_read-Called true n user [] = waiting n user _ (stopped killed)
    queue_read-Called false n user [] = deliver-Called n user []
    queue_read-Called w n user (ch ∷ bs) = deliver-Called n user (ch ∷ bs)
