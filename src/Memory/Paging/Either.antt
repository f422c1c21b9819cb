-- ===== src/Memory/Paging/Either.antt =====
-- `either_copyout` and `either_copyin` of kernel/os/TaskScheduler.cpp: bytes to and from a buffer of the
-- kernel or of the current task.
use startos.Prelude.{ℕ, suc, Bool, true, List, length, if◌then◌else◌}
use startos.Prelude.Run.{Run, ok}
use startos.Memory.Pages.{Memory}
use startos.Memory.Paging.Copy.{copyin, copyout, read_bytes, write_bytes}

-- Whether 0 was returned, and the memory.
unfoldable pub either_copyout : ℕ → Memory → Bool → ℕ → List ℕ → Run (Bool × Memory)
either_copyout pagetable s user_dst dst src =
    if user_dst
    then copyout (suc (length src)) s pagetable dst src
    else ok (true, record s { words = write_bytes s.words dst src })

-- Whether 0 was returned, and the bytes that were read.
unfoldable pub either_copyin : ℕ → Memory → Bool → ℕ → ℕ → Run (Bool × List ℕ)
either_copyin pagetable s user_src src len =
    if user_src then copyin (suc len) s pagetable src len else ok (true, read_bytes s.words src len)
