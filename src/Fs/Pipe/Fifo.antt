-- ===== src/Fs/Pipe/Fifo.antt =====
-- Readers and writers of one pipe, in any order, each with memory of its own.
use startos.Prelude.{
  ℕ, ◌-◌, ◌≡◌, sym, ap, ◌∙◌, Bool, Option, List, [], ◌∷◌, ◌++◌, append-nil, append_assoc, take,
  subst,
}
use startos.Fs.Pipe.{Pipe, Ending, write_loop, read}
use startos.Fs.Pipe.Queue.{IsPipe, contents, occupancy}
use startos.Fs.Pipe.Write.{fetch, write_loop-Written}
use startos.Fs.Pipe.Read.{read-queue_read}
use startos.Fs.Pipe.Calls.{
  ReadCall, bytes_of, bytes_of-append, AllTold, AllTold-append, call_of, Called, queue_read-Called,
}

splice :
    (start ws us rs vs mid end : List ℕ)
    → start ++ ws ≡ rs ++ mid
    → mid ++ us ≡ vs ++ end
    → start ++ (ws ++ us) ≡ (rs ++ vs) ++ end
splice start ws us rs vs mid end e f =
    sym (append_assoc start ws us)
    ∙ ap (λ (t : List ℕ). t ++ us) e
    ∙ append_assoc rs mid us
    ∙ ap (λ (t : List ℕ). rs ++ t) f
    ∙ sym (append_assoc rs vs end)

module _ {User : Type 0} (copyin : User → ℕ → Option ℕ) (copyout : User → ℕ → ℕ → Option User) where
  -- The call of `read` on a pipe.
  abbrev pub read_call : Bool → ℕ → User → ℕ → Pipe → ReadCall User
  read_call killed addr user n p =
      let r = read copyin copyout killed addr user n p in
      call_of copyin copyout killed addr n user (contents p) (r.0, contents r.1, r.2)

  -- A step with the bytes that enter the pipe and the calls of `read`.
  pub data Step (p : Pipe) : List ℕ → List (ReadCall User) → Pipe → Type 0 where
    writes :
        (killed : Bool) (addr : ℕ) (user : User) (k i : ℕ)
        → Step p
            (take (512 - occupancy p) (fetch copyin copyout killed addr user k i))
            []
            (write_loop copyin copyout killed addr user k i p).0
    reads :
        (killed : Bool) (addr : ℕ) (user : User) (n : ℕ)
        → Step p []
            (read_call killed addr user n p ∷ [])
            (read copyin copyout killed addr user n p).1

  pub data Steps (p : Pipe) : List ℕ → List (ReadCall User) → Pipe → Type 0 where
    here : Steps p [] [] p
    next :
        {ws us : List ℕ} {rs vs : List (ReadCall User)} {q r : Pipe}
        → Steps p ws rs q
        → Step q us vs r
        → Steps p (ws ++ us) (rs ++ vs) r

  Step-fifo :
      {p q : Pipe} {us : List ℕ} {vs : List (ReadCall User)}
      → IsPipe p
      → Step p us vs q
      → IsPipe q × (contents p ++ us ≡ bytes_of vs ++ contents q) × AllTold copyout vs
  unfolding Called
  Step-fifo {p = p} h (writes killed addr user k i) =
      let w = write_loop-Written copyin copyout killed addr user k i p h in
      (w.sound, sym w.appended, tt)
  Step-fifo {p = p} h (reads killed addr user n) =
      let r = read-queue_read copyin copyout killed addr user n p h in
      let c : Called copyin copyout killed addr n user (contents p) (
        (read copyin copyout killed addr user n p).0,
        contents (read copyin copyout killed addr user n p).1,
        (read copyin copyout killed addr user n p).2,
      ) =
        subst
          (λ (t : User × List ℕ × Ending). Called copyin copyout killed addr n user (contents p) t)
          (sym r.1)
          (queue_read-Called copyin copyout killed addr p.write_open n user (contents p)) in
      (
        r.0,
        append-nil _
            ∙ c.0
            ∙ ap (λ (t : List ℕ). t ++ contents (read copyin copyout killed addr user n p).1)
                (sym (append-nil _)),
        (c.1, tt),
      )

  -- Whatever stretches of reads and writes run on a pipe, in whatever order, the ring stays well formed,
  -- with at most 512 bytes in it, and what it held at first with all that was written after is what the
  -- calls of `read` took off it, in that order, followed by what it holds: no byte is doubled or
  -- overtaken. The memory of each call's task has the bytes the call got stored one behind the other, and
  -- the result counts them; one byte at most that the call took off the ring is dropped, behind them and
  -- uncounted: one that `copyout` could not store. A call that fails or sleeps takes none.
  pub Steps-fifo :
      {p q : Pipe} {ws : List ℕ} {rs : List (ReadCall User)}
      → IsPipe p
      → Steps p ws rs q
      → IsPipe q × (contents p ++ ws ≡ bytes_of rs ++ contents q) × AllTold copyout rs
  Steps-fifo h here = (h, append-nil _, tt)
  Steps-fifo {p = p} {q = q} h (next {rs = rs} {vs = vs} ss s) =
      let before = Steps-fifo h ss in
      let now = Step-fifo before.0 s in
      (
        now.0,
        splice (contents p) _ _ (bytes_of rs) (bytes_of vs) _ _ before.1 now.1
            ∙ ap (λ (t : List ℕ). t ++ contents q) (sym (bytes_of-append rs vs)),
        AllTold-append copyout rs vs before.2 now.2,
      )
