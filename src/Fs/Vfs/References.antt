-- ===== src/Fs/Vfs/References.antt =====
-- `dup` and `close` of kernel/fs/vfs/vfs.cpp in a row: when a file is given back.
use startos.Prelude.{
  ℕ, ◌+◌, ◌-◌, ◌≤◌, ◌==◌, ltb, if◌then◌else◌, true, false, Option, none, some, ◌≡◌, inl, inr, refl,
  ap, List, [], ◌∷◌, arith, Bool-cases,
}
use startos.Prelude.Run.{Run, ok, panic, fault, ◌>>=◌}
use startos.Fs.Vfs.OpenFile.{OpenFile, Objects, dup, release, close}

pub data Call : Type 0 where
  dup_call : Call
  close_call : Call

-- The calls keep a count of `r` references above 0, up to the last one, and leave `e`.
abbrev pub Leave : ℕ → List Call → ℕ → Type 0
Leave r [] e = r ≡ e
Leave r (dup_call ∷ cs) e = (1 ≤ r) × Leave (r + 1) cs e
Leave r (close_call ∷ cs) e = (1 ≤ r) × Leave (r - 1) cs e

still_held : (r : ℕ) (c : Call) (cs : List Call) (e : ℕ) → Leave r (c ∷ cs) e → 1 ≤ r
still_held r dup_call cs e l = l.0
still_held r close_call cs e l = l.0

module _ {S : Type 0} (objects : Objects S) where
  -- The calls in their order; none of them may come after the file is deleted.
  unfoldable pub run : List Call → S → Option OpenFile → Run (Option OpenFile × S)
  run [] s fp = ok (fp, s)
  run (c ∷ cs) s none = fault
  run (dup_call ∷ cs) s (some fp) = dup objects fp >>= λ fp'. run cs s (some fp')
  run (close_call ∷ cs) s (some fp) = close objects s fp >>= λ r. run cs r.1 r.0

  abbrev pub counted : OpenFile → ℕ → OpenFile
  counted fp e = record fp { ref = e }

  -- The file with `e` references; with none of them it is given back.
  abbrev pub outcome : S → OpenFile → ℕ → Run (Option OpenFile × S)
  outcome s fp e =
      if e == 0
      then (release objects s (counted fp 0) >>= λ s'. ok (none, s'))
      else ok (some (counted fp e), s)

  run_once :
      (m : Run S)
      → ((m >>= λ s'. ok (none, s')) >>= λ (r : Option OpenFile × S). run [] r.1 r.0)
        ≡ (m >>= λ s'. ok (none, s'))
  unfolding run
  run_once (ok s) = refl
  run_once panic = refl
  run_once fault = refl

  close-last :
      (s : S) (fp : OpenFile)
      → fp.ref ≡ 1
      → close objects s fp ≡ (release objects s (counted fp 0) >>= λ s'. ok (none, s'))
  unfolding close
  close-last s fp h = rw (close, h) refl

  close-more :
      (s : S) (fp : OpenFile)
      → 2 ≤ fp.ref
      → close objects s fp ≡ ok (some (counted fp (fp.ref - 1)), s)
  unfolding close
  close-more s fp h =
      let live : (fp.ref == 0) ≡ false = ground (arith, h) in
      let more : ltb 0 (fp.ref - 1) ≡ true = ground (arith, h) in rw (close, live, more) refl

  dup-live : (fp : OpenFile) → 1 ≤ fp.ref → dup objects fp ≡ ok (counted fp (fp.ref + 1))
  unfolding dup
  dup-live fp h = let live : (fp.ref == 0) ≡ false = ground (arith, h) in rw (dup, live) refl

  -- Calls of `dup` and `close` that keep the count of a file above 0 up to the last one: none of them
  -- panics or meets a deleted file. If references are left, the file has their number and nothing is
  -- given back; if none is left, the pipe end or the inode is given back once, by the last call.
  pub run-outcome :
      (cs : List Call) (s : S) (fp : OpenFile) (e : ℕ)
      → 1 ≤ fp.ref
      → Leave fp.ref cs e
      → run cs s (some fp) ≡ outcome s fp e
  unfolding run
  run-outcome [] s fp e h l =
      let live : (e == 0) ≡ false = ground (arith, h, l) in
      rw live (ap (λ (r : ℕ). ok (some (counted fp r), s)) l)
  run-outcome (dup_call ∷ cs) s fp e h (_, l) =
      rw (run, dup-live fp h, ◌>>=◌) (run-outcome cs s (counted fp (fp.ref + 1)) e (omega arith) l)
  run-outcome (close_call ∷ []) s fp e h (_, l) = elim (Bool-cases (fp.ref == 1)) [
    | inl one ↦
        let gone : (e == 0) ≡ true = ground (arith, one, l) in
        rw (run, close-last s fp (ground (arith, one)), gone)
          (run_once (release objects s (counted fp 0)))
    | inr more ↦
        let several : 2 ≤ fp.ref = ground (arith, more, h) in
        rw (run, close-more s fp several, ◌>>=◌)
          (run-outcome [] s (counted fp (fp.ref - 1)) e (omega arith) l)
  ]
  run-outcome (close_call ∷ c ∷ cs) s fp e h (_, l) =
      let several : 2 ≤ fp.ref = omega (arith, still_held (fp.ref - 1) c cs e l) in
      rw (run, close-more s fp several, ◌>>=◌)
        (run-outcome (c ∷ cs) s (counted fp (fp.ref - 1)) e (omega arith) l)
