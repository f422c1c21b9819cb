-- ===== src/Fs/Console/Tests.antt =====
-- A typed line, and the theorems at it.
use startos.Prelude.{
  ℕ, zero, suc, ◌+◌, ◌%◌, get_or, ◌<◌, ◌==◌, if◌then◌else◌, true, ◌≡◌, refl, [], ◌∷◌, arith,
}
use startos.Fs.Console.{Console, console_intr, read_loop}
use startos.Fs.Console.Line.{Unread, Reading, console_intr-Unread, read_loop-Reading}

abbrev typed_line : Console
typed_line = record { buf = λ i. if i == 0 then 97 else 10; read_index = 0; write_index = 2 }

typed_line-Unread : Unread typed_line (97 ∷ 10 ∷ [])
typed_line-Unread = record { span = refl; fits = omega arith; kept = λ i b. kept i b }
  where
    kept : (i : ℕ) → i < 2 → typed_line.buf ((0 + i) % 128) ≡ get_or (97 ∷ 10 ∷ []) i 0
    kept zero b = refl
    kept (suc zero) b = refl
    kept (suc (suc i)) b = absurd (omega arith)

console_intr-Unread_example : Unread (console_intr typed_line 98).0 (97 ∷ 10 ∷ 98 ∷ [])
console_intr-Unread_example =
    console_intr-Unread typed_line (97 ∷ 10 ∷ []) 98 typed_line-Unread (omega arith)

read_loop-Reading_example : Reading 5 5 (97 ∷ 10 ∷ []) (read_loop (λ dst c. true) typed_line 0 5 5)
read_loop-Reading_example =
    read_loop-Reading (λ dst c. true) (λ dst c. refl) 5 typed_line 0 5 (97 ∷ 10 ∷ [])
      typed_line-Unread
