-- ===== src/Fs/Vfs.antt =====
-- kernel/fs/vfs/vfs.cpp and kernel/fs/vfs_file.cpp: paths to inodes, and the counts of references to
-- them. An inode is a number, 0 for none; a path is its bytes before the NUL. The sleep lock of an inode
-- makes each call one step.
pub mod Path
pub mod Resolve
pub mod Balance
pub mod OpenFile
pub mod References
mod Tests
use startos.Prelude.{
  ℕ, zero, suc, ◌+◌, ◌-◌, ◌≤◌, ◌<◌, ◌==◌, leb, if◌then◌else◌, ◌&&◌, Bool, true, false, Option, none,
  some, List, [], ◌∷◌, ◌++◌, length, take,
}
use startos.Prelude.Run.{Run, ok, panic, fault, ◌>>=◌}

-- What `namex` uses of the inodes and of their file systems.
pub record FileSystems (S : Type 0) : Type 0 where
  pub is_dir : S → ℕ → Bool
  pub ref : S → ℕ → ℕ
  pub set_ref : S → ℕ → ℕ → S
  pub lookup : S → ℕ → List ℕ → Option ℕ × S
  pub delete_inode : S → ℕ → S

-- `origin` and `target` of an entry of `mount_points_`.
pub record MountPoint : Type 0 where
  pub origin : ℕ
  pub target : ℕ

abbrev pub k_max_file_name : ℕ
k_max_file_name = 35

abbrev pub slash : ℕ
slash = 47

unfoldable pub skip_slashes : List ℕ → List ℕ
skip_slashes [] = []
skip_slashes (x ∷ xs) = elim (x == slash) [ true ↦ skip_slashes xs | false ↦ x ∷ xs ]

-- The bytes up to the next slash, and the rest.
unfoldable pub split_name : List ℕ → List ℕ × List ℕ
split_name [] = ([], [])
split_name (x ∷ xs) = elim (x == slash) [
  | true ↦ ([], x ∷ xs)
  | false ↦ let (s, rest) = split_name xs in (x ∷ s, rest)
]

-- What `SkipElememt` puts into the buffer for a name; a long name has no NUL behind it.
abbrev pub name_buffer : List ℕ → List ℕ
name_buffer s = if leb k_max_file_name (length s) then take k_max_file_name s else s ++ 0 ∷ []

-- `SkipElememt`: the buffer and the rest of the path.
unfoldable pub skip_element : List ℕ → Option (List ℕ × List ℕ)
skip_element path = elim (skip_slashes path) [
  | [] ↦ none
  | x ∷ xs ↦ let (s, rest) = split_name (x ∷ xs) in some (name_buffer s, skip_slashes rest)
]

-- The string in a buffer, if its NUL is in the buffer.
unfoldable pub c_string : List ℕ → Option (List ℕ)
c_string [] = none
c_string (x ∷ xs) = elim (x == 0) [
  | true ↦ some []
  | false ↦ elim (c_string xs) [ some s ↦ some (x ∷ s) | none ↦ none ]
]

abbrev pub is_empty : List ℕ → Bool
is_empty [] = true
is_empty (_ ∷ _) = false

module _ {S : Type 0} (fs : FileSystems S) where
  -- `inode::dup`
  unfoldable pub dup : S → ℕ → S
  dup s ip = fs.set_ref s ip (fs.ref s ip + 1)

  -- `inode::free`
  unfoldable pub free : S → ℕ → Run S
  free s ip =
      if fs.ref s ip == 0
      then panic
      else (let s' = fs.set_ref s ip (fs.ref s ip - 1) in
          if fs.ref s ip == 1 then ok (fs.delete_inode s' ip) else ok s')

  -- `ConvertInodeByMp`, over the mount points left.
  unfoldable pub convert_inode_by_mp : List MountPoint → S → ℕ → Run (ℕ × S)
  convert_inode_by_mp [] s ip = ok (ip, s)
  convert_inode_by_mp (mp ∷ mps) s ip = elim (mp.origin == ip) [
    | true ↦ free s ip >>= λ s'. ok (mp.target, dup s' mp.target)
    | false ↦ convert_inode_by_mp mps s ip
  ]

  -- The end of a round of `namex`: one step from the directory `ip` to the name in the buffer.
  unfoldable pub descend : List MountPoint → S → ℕ → List ℕ → Run (Option ℕ × S)
  descend mps s ip name = elim (c_string name) [
    | none ↦ fault
    | some n ↦
        let (next, s') = fs.lookup s ip n in
        free s' ip >>= λ s''. elim next [
          | none ↦ ok (none, s'')
          | some x ↦ convert_inode_by_mp mps s'' x >>= λ r. ok (some r.0, r.1)
        ]
  ]

  -- The loop of `namex`, with fuel: the inode, the buffer for the name, and the state.
  unfoldable pub namex :
      ℕ → List MountPoint → S → ℕ → List ℕ → Bool → List ℕ → Run (Option ℕ × List ℕ × S)
  namex zero mps s ip path nameiparent name = fault
  namex (suc k) mps s ip path nameiparent name = elim (skip_element path) [
    | none ↦
        if nameiparent then (free s ip >>= λ s'. ok (none, name, s')) else ok (some ip, name, s)
    | some e ↦ elim (fs.is_dir s ip) [
      | false ↦ free s ip >>= λ s'. ok (none, e.0, s')
      | true ↦ elim (nameiparent && is_empty e.1) [
        | true ↦ ok (some ip, e.0, s)
        | false ↦ descend mps s ip e.0 >>= λ r. elim r.0 [
          | none ↦ ok (none, e.0, r.1)
          | some next ↦ namex k mps r.1 next e.1 nameiparent e.0
        ]
      ]
    ]
  ]
