-- ===== src/Fs/Vfs/OpenFile.antt =====
-- `struct file` of kernel/include/fs/vfs_file.h and the methods of `VfsManager` on it in
-- kernel/fs/vfs/vfs.cpp. The lock of its count makes each call one step, and the count is taken to stay
-- below 2^31.
use startos.Prelude.{
  ℕ, ◌+◌, ◌-◌, ◌^◌, ◌%◌, ◌==◌, ltb, leb, if◌then◌else◌, not, max, Bool, Option, none, some,
}
use startos.Prelude.Run.{Run, ok, panic, ◌>>=◌}

pub data FileType : Type 0 where
  fd_none : FileType
  fd_pipe : FileType
  fd_entry : FileType
  fd_device : FileType
  fd_inode : FileType

pub record OpenFile : Type 0 where
  pub size : ℕ
  pub ref : ℕ
  pub readable : Bool
  pub writable : Bool
  pub type : FileType
  pub pipe : ℕ
  pub inode : ℕ
  pub offset : ℕ

-- What files use of pipes and inodes. A number of bytes is an `int`, negative from 2^31 on.
pub record Objects (S : Type 0) : Type 0 where
  pub pipe_read : S → ℕ → ℕ → Run (ℕ × S)
  pub pipe_write : S → ℕ → ℕ → Run (ℕ × S)
  pub inode_read : S → ℕ → ℕ → ℕ → Run (ℕ × S)
  pub inode_write : S → ℕ → ℕ → ℕ → Run (ℕ × S)
  pub close_write_end : S → ℕ → Run S
  pub close_read_end : S → ℕ → Run S
  pub inode_free : S → ℕ → Run S

-- An `int` added to a `size_t`.
abbrev pub moved_by : ℕ → ℕ → ℕ
moved_by offset n =
    if leb (2 ^ 31) n then (offset + n + (2 ^ 64 - 2 ^ 32)) % 2 ^ 64 else (offset + n) % 2 ^ 64

module _ {S : Type 0} (objects : Objects S) where
  -- `VfsManager::read`
  unfoldable pub read : S → OpenFile → ℕ → Run (ℕ × OpenFile × S)
  read s fp n =
      elim fp.type as (λ _. Run (ℕ × S)) [
        | fd_pipe ↦ objects.pipe_read s fp.pipe n
        | fd_inode ↦ objects.inode_read s fp.inode (fp.offset % 2 ^ 32) n
        | fd_none ↦ panic
        | fd_entry ↦ panic
        | fd_device ↦ panic
      ]
      >>= λ r. ok (r.0, record fp { offset = moved_by fp.offset r.0 }, r.1)

  -- `VfsManager::write`: `none` is -1. The offset moves twice for an inode.
  unfoldable pub write : S → OpenFile → ℕ → Run (Option ℕ × OpenFile × S)
  write s fp n =
      if not fp.writable
      then ok (none, fp, s)
      else (elim fp.type as (λ _. Run (Option ℕ × OpenFile × S)) [
        | fd_pipe ↦ objects.pipe_write s fp.pipe n >>= λ r.
            ok (some r.0, record fp { offset = moved_by fp.offset r.0 }, r.1)
        | fd_inode ↦ objects.inode_write s fp.inode (fp.offset % 2 ^ 32) n >>= λ r.
            let offset = moved_by fp.offset r.0 in
            ok (
              some r.0,
              record fp { offset = moved_by offset r.0; size = max fp.size (moved_by offset r.0) },
              r.1,
            )
        | fd_none ↦ panic
        | fd_entry ↦ panic
        | fd_device ↦ panic
      ])

  unfoldable pub rewind : OpenFile → Run OpenFile
  rewind fp = if fp.ref == 0 then panic else ok (record fp { offset = 0 })

  unfoldable pub dup : OpenFile → Run OpenFile
  dup fp = if fp.ref == 0 then panic else ok (record fp { ref = fp.ref + 1 })

  -- What the last `close` gives back.
  unfoldable pub release : S → OpenFile → Run S
  release s fp = elim fp.type as (λ _. Run S) [
    | fd_pipe ↦ (if fp.writable then objects.close_write_end s fp.pipe else ok s) >>= λ s'.
        if fp.readable then objects.close_read_end s' fp.pipe else ok s'
    | fd_inode ↦ objects.inode_free s fp.inode
    | fd_none ↦ ok s
    | fd_entry ↦ ok s
    | fd_device ↦ ok s
  ]

  -- `VfsManager::close`: none for a file that is deleted.
  unfoldable pub close : S → OpenFile → Run (Option OpenFile × S)
  close s fp =
      if fp.ref == 0
      then panic
      else (let fp' = record fp { ref = fp.ref - 1 } in
          if ltb 0 fp'.ref then ok (some fp', s) else (release s fp' >>= λ s'. ok (none, s')))
