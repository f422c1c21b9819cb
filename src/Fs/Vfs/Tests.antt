-- ===== src/Fs/Vfs/Tests.antt =====
-- Two directories, one of them with a file system mounted on it, and the theorems at a path.
use startos.Prelude.{
  ℕ, ◌+◌, ◌==◌, if◌then◌else◌, Bool, true, false, Option, none, some, ◌≡◌, refl, List, [], ◌∷◌,
  get_or, arith,
}
use startos.Prelude.Run.{ok}
use startos.Fs.Vfs.{FileSystems, MountPoint, descend, namex}
use startos.Fs.Vfs.Path.{components}
use startos.Fs.Vfs.Resolve.{resolve, namex-resolve}
use startos.Fs.Vfs.OpenFile.{OpenFile, Objects, fd_inode}
use startos.Fs.Vfs.References.{dup_call, close_call, run, outcome, run-outcome}
use startos.Fs.Vfs.Balance.{one, held, references, built_in, built_on, Counted, namex-balance}

-- "/d//t/"
abbrev path : List ℕ
path = 47 ∷ 100 ∷ 47 ∷ 47 ∷ 116 ∷ 47 ∷ []

abbrev child : ℕ → ℕ → Option ℕ
child ip c =
    if (ip == 1) then (if c == 100 then some 2 else none) else (if ip == 3 then some 4 else none)

-- Every inode that is found is built, none is kept.
abbrev has_child : (ℕ → ℕ) → ℕ → List ℕ → Bool
has_child s ip n = elim (child ip (get_or n 0 0)) [ none ↦ false | some x ↦ true ]

-- Inode 1 has "d", inode 2, and inode 3 has "t", inode 4. The state is the counts of references.
abbrev systems : FileSystems (ℕ → ℕ)
systems = record {
  is_dir = λ s ip. if ip == 4 then false else true;
  ref = λ s ip. s ip;
  set_ref = λ s ip v. λ y. if y == ip then v else s y;
  lookup = λ s ip n. (
    child ip (get_or n 0 0),
    λ y. s y + held (child ip (get_or n 0 0)) y + references (built_in has_child s ip n) y,
  );
  delete_inode = λ s ip. s;
}

abbrev mounts : List MountPoint
mounts = record { origin = 2; target = 3 } ∷ []

systems-Counted : Counted systems has_child
systems-Counted = record {
  looked = λ s ip n y. refl;
  put = λ s x v y. refl;
  deleted = λ s x y. refl;
}

namex-resolve_example :
    namex systems 7 mounts (λ y. 1) 1 path false []
    ≡ resolve systems mounts (λ y. 1) 1 (components path) false []
namex-resolve_example = namex-resolve systems mounts 7 (λ y. 1) 1 path false [] (omega arith)

namex-balance_example :
    (o : Option ℕ) × (buf : List ℕ) × (s' : ℕ → ℕ) × (namex systems 7 mounts
        (λ y. 1)
        1
        path
        false
        []
      ≡ ok (o, buf, s'))
    × ((y : ℕ)
        → s' y + one 1 y
          ≡ 1
            + held o y
            + references (built_on systems has_child mounts (λ z. 1) 1 (components path) false) y)
namex-balance_example =
    namex-balance systems has_child systems-Counted 7 mounts (λ y. 1) 1 path false [] (omega arith)
      (
        (omega arith, ((λ e. absurd (omega (arith, e))), tt)),
        ((omega arith, ((λ e. absurd (omega (arith, e))), tt)), tt),
      )
      (omega arith)

-- The root and the mounted directory keep a reference each.
left_behind : built_on systems has_child mounts (λ z. 1) 1 (components path) false ≡ 1 ∷ 3 ∷ []
unfolding built_on descend startos.Fs.Vfs.c_string startos.Fs.Vfs.free
    startos.Fs.Vfs.convert_inode_by_mp startos.Fs.Vfs.dup
left_behind = refl

-- The state counts the inodes given back.
abbrev objects : Objects ℕ
objects = record {
  pipe_read = λ s p n. ok (0, s);
  pipe_write = λ s p n. ok (0, s);
  inode_read = λ s ip off n. ok (0, s);
  inode_write = λ s ip off n. ok (0, s);
  close_write_end = λ s p. ok s;
  close_read_end = λ s p. ok s;
  inode_free = λ s ip. ok (s + 1);
}

abbrev shared : OpenFile
shared = record {
  size = 0;
  ref = 1;
  readable = true;
  writable = true;
  type = fd_inode;
  pipe = 0;
  inode = 4;
  offset = 0;
}

run-outcome_example :
    run objects (dup_call ∷ close_call ∷ close_call ∷ []) 0 (some shared)
    ≡ outcome objects 0 shared 0
run-outcome_example =
    run-outcome objects (dup_call ∷ close_call ∷ close_call ∷ []) 0 shared 0 (omega arith)
      (omega arith, (omega arith, (omega arith, refl)))

given_back_once : outcome objects 0 shared 0 ≡ ok (none, 1)
unfolding startos.Fs.Vfs.OpenFile.release
given_back_once = refl
