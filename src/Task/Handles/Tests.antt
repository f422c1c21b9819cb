-- ===== src/Task/Handles/Tests.antt =====
-- Registrations in a table with two files open.
use startos.Prelude.{ℕ, ◌≡◌, refl, some, List, ◌∷◌, replicate, ◌^◌, ◌-◌}
use startos.Prelude.Run.{ok, fault}
use startos.Task.Handles.{register_file_handle, get_file_by_fd}
use startos.Task.Handles.Table.{Registration, register_file_handle-cases}

abbrev two_open : List ℕ
two_open = 11 ∷ 12 ∷ replicate 118 0

third : register_file_handle 13 (2 ^ 32 - 1) two_open ≡ ok (some 2, 11 ∷ 12 ∷ 13 ∷ replicate 117 0)
unfolding register_file_handle
third = refl

register_file_handle-cases_example :
    Registration 13 (2 ^ 32 - 1) two_open (register_file_handle 13 (2 ^ 32 - 1) two_open)
register_file_handle-cases_example = register_file_handle-cases 13 (2 ^ 32 - 1) two_open refl

past_the_table : get_file_by_fd 120 two_open ≡ fault
unfolding get_file_by_fd
past_the_table = refl
