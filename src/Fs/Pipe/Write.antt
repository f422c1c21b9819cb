-- ===== src/Fs/Pipe/Write.antt =====
-- What a stretch of `write` does to the queue.
use startos.Prelude.{
  ℕ, zero, suc, ◌+◌, ◌-◌, ◌%◌, ◌^◌, ◌≤◌, ◌<◌, ltb, leb, if◌then◌else◌, ◌&&◌, ◌≡◌, refl, sym, ◌∙◌,
  Bool, true, Option, none, some, List, [], ◌∷◌, ◌++◌, append-nil, append_assoc, length, take,
  arith, Bool-cases, Option-cases, inl, inr,
}
use startos.Fs.Pipe.{Pipe, Ending, returns, on_nread, stop_writer, is_full, put, write_loop}
use startos.Fs.Pipe.Queue.{
  IsPipe, contents, occupancy, is_full-eq, put-occupancy, put-IsPipe, put-contents,
}

take-nil : (n : ℕ) → take {A = ℕ} n [] ≡ []
take-nil zero = refl
take-nil (suc n) = refl

take-next :
    (n x : ℕ) (xs : List ℕ) → n < 512 → take (512 - n) (x ∷ xs) ≡ x ∷ take (512 - (n + 1)) xs
take-next n x xs l =
    let one_more : 512 - n ≡ suc (512 - (n + 1)) = omega (arith, l) in rw one_more refl

full : (p : Pipe) → IsPipe p → is_full p ≡ true → occupancy p ≡ 512
full p h e = ground (arith, is_full-eq p h, e)

module _ {User : Type 0} (copyin : User → ℕ → Option ℕ) (copyout : User → ℕ → ℕ → Option User)
    (killed : Bool) (addr : ℕ) where
  -- At most `k` bytes of the task's memory, up to the first address that it does not have.
  abbrev pub fetch : User → ℕ → ℕ → List ℕ
  fetch user zero i = []
  fetch user (suc k) i = elim (copyin user ((addr + i) % 2 ^ 64)) [
    | none ↦ []
    | some ch ↦ ch ∷ fetch user k (suc i)
  ]

  -- How `write` of `k` bytes ends when the ring has `room` and memory holds `found` of them.
  abbrev pub ending : Pipe → ℕ → ℕ → ℕ → ℕ → Ending
  ending p k i room found =
      if ltb room k && leb room found
      then stop_writer copyin copyout killed addr p (i + room)
      else record { outcome = returns (i + found); woken = on_nread ∷ [] }

  -- One more byte in the ring and one fewer to write.
  ending-next :
      (p : Pipe) (k i room found : ℕ)
      → 1 ≤ room
      → ending p k (suc i) (room - 1) found ≡ ending p (suc k) i room (suc found)
  ending-next p k i zero found l = absurd (omega arith)
  ending-next p k i (suc room) found l = ground arith

  ending-put :
      (p : Pipe) (h : IsPipe p) (ch k i found : ℕ)
      → occupancy p < 512
      → ending (put p ch) k (suc i) (512 - occupancy (put p ch)) found
        ≡ ending p (suc k) i (512 - occupancy p) (suc found)
  unfolding put
  ending-put p h ch k i found l =
      let fewer : 512 - occupancy (put p ch) ≡ 512 - occupancy p - 1 =
        omega (arith, put-occupancy p h ch l) in
      rw fewer (ending-next p k i (512 - occupancy p) found (omega (arith, l)))

  pub record Written (bs : List ℕ) (k i : ℕ) (p : Pipe) (r : Pipe × Ending) : Type 0 where
    pub sound : IsPipe r.0
    pub appended : contents r.0 ≡ contents p ++ take (512 - occupancy p) bs
    pub ended : r.1 ≡ ending p k i (512 - occupancy p) (length bs)

  -- A stretch of `write` from its byte `i` on appends to the queue as many of the task's next `k` bytes
  -- as the ring has room for, keeps the ring well formed, and ends as the room and the bytes found
  -- decide: with bytes left and a full ring it fails or sleeps at the byte it has reached, and else
  -- it returns the count up to the end or to the first address that the task does not have.
  pub write_loop-Written :
      (user : User) (k i : ℕ) (p : Pipe)
      → IsPipe p
      → Written (fetch user k i) k i p (write_loop copyin copyout killed addr user k i p)
  write_loop-Written user zero i p h = record {
    sound = h;
    appended = rw (take-nil (512 - occupancy p)) (sym (append-nil _));
    ended = ground arith;
  }
  write_loop-Written user (suc k) i p h = elim (Bool-cases (is_full p)) [
    | inl e ↦ rw e record {
      sound = h;
      appended = rw (full p h e) (sym (append-nil _));
      ended = rw (full p h e) (ground arith);
    }
    | inr e ↦
        (let room : occupancy p < 512 = ground (arith, is_full-eq p h, e, h.fits) in
          elim (Option-cases (copyin user ((addr + i) % 2 ^ 64))) [
            | inl n ↦
                rw (e, n, fetch)
                  record {
                    sound = h;
                    appended = rw (take-nil (512 - occupancy p)) (sym (append-nil _));
                    ended = (ground (arith, room));
                  }
            | inr s ↦
                rw (e, s.1, fetch)
                  (let after : Written (fetch user k (suc i)) k (suc i) (put p s.0)
                        (write_loop copyin copyout killed addr user k (suc i) (put p s.0)) =
                      write_loop-Written user k (suc i) (put p s.0) (put-IsPipe p h s.0 room) in
                    record {
                      sound = after.sound;
                      appended = rw (take-next (occupancy p) s.0 (fetch user k (suc i)) room) (
                          after.appended
                          ∙ rw (put-contents p h s.0 room, put-occupancy p h s.0 room)
                              (append_assoc (contents p) (s.0 ∷ [])
                                (take (512 - (occupancy p + 1)) (fetch user k (suc i)))));
                      ended =
                          after.ended ∙ ending-put p h s.0 k i (length (fetch user k (suc i))) room;
                    })
          ])
  ]
