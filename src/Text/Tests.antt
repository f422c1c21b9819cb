-- ===== src/Text/Tests.antt =====
-- Runs of the string routines on a small memory.
use startos.Prelude.{◌%◌, ◌≤◌, ◌≡◌, inr, refl, [], ◌∷◌, get_or, if◌then◌else◌, arith}
use startos.Text.{Bytes, memset, memmove, strncpy, safestrcpy}
use startos.Text.Moves.{is_in, moved, memmove-moved, memset-filled}
use startos.Text.Copies.{copied, padded, text_len, strncpy-padded, safestrcpy-copied}

-- The string "abc" at address 1.
abbrev text : Bytes
text a = get_or (9 ∷ 97 ∷ 98 ∷ 99 ∷ 0 ∷ 8 ∷ []) a 7

memmove-moved_example : memmove text 2 1 3 4 ≡ moved text 2 1 3 4
memmove-moved_example = memmove-moved text 2 1 3 4

overlapping : memmove text 2 1 3 4 ≡ 99
unfolding memmove
overlapping = refl

memset-filled_test : memset 2 text 1 300 2 ≡ (if is_in 2 1 2 then 300 % 256 else text 2)
memset-filled_test = memset-filled 2 text 1 300 2

filled_up : strncpy 6 text 20 1 24 ≡ 0
filled_up = refl

strncpy-padded_test : strncpy 6 text 20 1 21 ≡ padded text 20 1 6 (text_len 6 text 1) 21
strncpy-padded_test = strncpy-padded 6 text 20 1 21 (inr (omega arith))

safestrcpy-copied_test :
    (safestrcpy 3 text 20 1 22 ≡ copied text 20 1 2 (text_len 2 text 1) 22)
    × (text_len 2 text 1 ≤ 2)
safestrcpy-copied_test = safestrcpy-copied 2 text 20 1 22 (inr (omega arith))
