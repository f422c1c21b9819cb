-- ===== src/Task/Handles.antt =====
-- The open files of a task: `registerFileHandle`, `getFileByfd` and `Task::AllocFd`. A descriptor is a
-- word of 32 bits, negative from 2^31 on.
use startos.Prelude.{
  ℕ, zero, suc, ◌+◌, ◌-◌, ◌^◌, ◌==◌, ltb, leb, if◌then◌else◌, ◌&&◌, ◌||◌, not, Bool, Option, none,
  some, List, get_or, set,
}
use startos.Prelude.Run.{Run, ok, panic, fault}
use startos.Task.{nofile, nfile}
pub mod Table
mod Tests

abbrev pub is_negative : ℕ → Bool
is_negative fd = leb (2 ^ 31) fd

-- The first free descriptor of the `k` from `i` on.
abbrev pub first_free : ℕ → ℕ → List ℕ → Option ℕ
first_free zero i fs = none
first_free (suc k) i fs =
    let rest = first_free k (suc i) fs in if get_or fs i 0 == 0 then some i else rest

abbrev pub place : ℕ → List ℕ → Option ℕ → Run (Option ℕ × List ℕ)
place fp fs none = panic
place fp fs (some i) = ok (some i, set fs i fp)

-- `registerFileHandle(fp, fd)`; `none` is -1.
unfoldable pub register_file_handle : ℕ → ℕ → List ℕ → Run (Option ℕ × List ℕ)
register_file_handle fp fd fs =
    if ltb nfile fd && not (is_negative fd) || fp == 0
    then ok (none, fs)
    else (if is_negative fd
        then place fp fs (first_free nofile 0 fs)
        else (if get_or fs fd 0 == 0 then ok (some fd, set fs fd fp) else ok (none, fs)))

-- `getFileByfd(fd)`: 0 for no file. A descriptor just past the table is read outside of it.
unfoldable pub get_file_by_fd : ℕ → List ℕ → Run ℕ
get_file_by_fd fd fs =
    if is_negative fd || ltb nofile fd
    then ok 0
    else (if ltb fd nofile then ok (get_or fs fd 0) else fault)

abbrev pub found : Option ℕ → Run ℕ
found none = panic
found (some i) = ok i

-- `AllocFd(from, to)`, on a range inside the table; a negative bound stands for the table's own.
unfoldable pub alloc_fd : ℕ → ℕ → List ℕ → Run ℕ
alloc_fd from to fs =
    let low = if is_negative from then 0 else from in
    let high = if is_negative to then nofile else to in found (first_free (high - low) low fs)
