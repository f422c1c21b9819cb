-- ===== src/Fs/Vfs/Balance.antt =====
-- The counts of references that `namex` of kernel/fs/vfs/vfs.cpp takes and gives back.
use startos.Prelude.{
  ℕ, ◌+◌, ◌-◌, ◌≤◌, ◌<◌, ◌==◌, if◌then◌else◌, ◌&&◌, Bool, true, false, Option, none, some, ◌≡◌, ◌⊎◌,
  inl, inr, refl, ap, ◌∙◌, List, [], ◌∷◌, ◌++◌, length, All, arith, Bool-cases,
}
use startos.Prelude.Run.{Run, ok, panic, fault, ◌>>=◌}
use startos.Fs.Vfs.{
  FileSystems, MountPoint, name_buffer, dup, free, convert_inode_by_mp, descend, namex,
}
use startos.Fs.Vfs.Path.{components, no_names}
use startos.Fs.Vfs.Resolve.{Fitting, c_string-name_buffer, resolve, namex-resolve}

-- One reference to `x`, counted at `y`.
abbrev pub one : ℕ → ℕ → ℕ
one x y = if y == x then 1 else 0

abbrev pub held : Option ℕ → ℕ → ℕ
held none y = 0
held (some x) y = one x y

-- How many references a list of inodes makes, counted at `y`.
abbrev pub references : List ℕ → ℕ → ℕ
references [] y = 0
references (x ∷ xs) y = one x y + references xs y

references-append :
    (xs zs : List ℕ) (y : ℕ) → references (xs ++ zs) y ≡ references xs y + references zs y
references-append [] zs y = omega arith
references-append (x ∷ xs) zs y = omega (arith, references-append xs zs y)

-- The directory of a `Lookup` that builds a new inode.
abbrev pub built_in : {S : Type 0} → (S → ℕ → List ℕ → Bool) → S → ℕ → List ℕ → List ℕ
built_in builds s ip n = if builds s ip n then ip ∷ [] else []

-- What the file systems promise: `Lookup` hands out one reference to what it finds and, when it
-- builds a new inode for it (`builds`), takes one to the directory, as `BuildInode` of
-- kernel/fs/fat32/fat32_file_system.cpp does.
pub record Counted {S : Type 0} (fs : FileSystems S) (builds : S → ℕ → List ℕ → Bool) : Type 0 where
  pub looked :
      (s : S) (ip : ℕ) (n : List ℕ) (y : ℕ)
      → let (o, s') = fs.lookup s ip n in
        fs.ref s' y ≡ fs.ref s y + held o y + references (built_in builds s ip n) y
  pub put : (s : S) (x v y : ℕ) → fs.ref (fs.set_ref s x v) y ≡ (if y == x then v else fs.ref s y)
  pub deleted : (s : S) (x y : ℕ) → fs.ref (fs.delete_inode s x) y ≡ fs.ref s y

abbrev next_of : {S : Type 0} → Run (Option ℕ × S) → Option (ℕ × S)
next_of (ok (none, s)) = none
next_of (ok (some x, s)) = some (x, s)
next_of panic = none
next_of fault = none

module _ {S : Type 0} (fs : FileSystems S) (builds : S → ℕ → List ℕ → Bool) where
  -- The directories in which the walk along names builds a new inode, in their order.
  unfoldable pub built_on : List MountPoint → S → ℕ → List (List ℕ) → Bool → List ℕ
  built_on mps s ip [] nameiparent = []
  built_on mps s ip (n ∷ ns) nameiparent = elim (fs.is_dir s ip) [
    | false ↦ []
    | true ↦ elim (nameiparent && no_names ns) [
      | true ↦ []
      | false ↦ built_in builds s ip n ++ elim (next_of (descend fs mps s ip (name_buffer n))) [
        | none ↦ []
        | some r ↦ built_on mps r.1 r.0 ns nameiparent
      ]
    ]
  ]

module _ {S : Type 0} (fs : FileSystems S) (builds : S → ℕ → List ℕ → Bool)
    (counted : Counted fs builds) where
  -- From `s` to `s'` a reference to `ip` was given back, and those in `o` and in `bs` were taken.
  abbrev pub Taken : S → ℕ → Option ℕ → List ℕ → S → Type 0
  Taken s ip o bs s' = (y : ℕ) → fs.ref s' y + one ip y ≡ fs.ref s y + held o y + references bs y

  abbrev pub Traded : S → ℕ → Option ℕ → S → Type 0
  Traded s ip o s' = (y : ℕ) → fs.ref s' y + one ip y ≡ fs.ref s y + held o y

  free-Traded :
      (s : S) (ip : ℕ) → 1 ≤ fs.ref s ip → (s' : S) × (free fs s ip ≡ ok s') × Traded s ip none s'
  unfolding free
  free-Traded s ip h =
      let some_left : (fs.ref s ip == 0) ≡ false = ground (arith, h) in
      let s1 = fs.set_ref s ip (fs.ref s ip - 1) in
      let given : Traded s ip none s1 = λ y. elim (Bool-cases (y == ip)) [
        | inl e ↦
            let same : y ≡ ip = ground (arith, e) in
            let before : fs.ref s y ≡ fs.ref s ip = ap (λ (x : ℕ). fs.ref s x) same in
            let after : fs.ref s1 y ≡ fs.ref s ip - 1 =
              counted.put s ip (fs.ref s ip - 1) y ∙ rw e refl in
            rw e (omega (arith, before, after))
        | inr n ↦
            let after : fs.ref s1 y ≡ fs.ref s y =
              counted.put s ip (fs.ref s ip - 1) y ∙ rw n refl in
            rw n (omega (arith, after))
      ] in
      elim (Bool-cases (fs.ref s ip == 1)) [
        | inl last ↦ (
          fs.delete_inode s1 ip,
          rw (free, some_left, last) refl,
          λ y. omega (arith, counted.deleted s1 ip y, given y),
        )
        | inr more ↦ (s1, rw (free, some_left, more) refl, given)
      ]

  dup-counts : (s : S) (x y : ℕ) → fs.ref (dup fs s x) y ≡ fs.ref s y + one x y
  unfolding dup
  dup-counts s x y = elim (Bool-cases (y == x)) [
    | inl e ↦
        let same : fs.ref s y ≡ fs.ref s x = ap (λ (z : ℕ). fs.ref s z) (ground (arith, e)) in
        counted.put s x (fs.ref s x + 1) y ∙ rw e (omega (arith, same))
    | inr n ↦ counted.put s x (fs.ref s x + 1) y ∙ rw n (omega arith)
  ]

  convert-Traded :
      (mps : List MountPoint) (s : S) (ip : ℕ)
      → 1 ≤ fs.ref s ip
      → (r : ℕ) × (s' : S) × (convert_inode_by_mp fs mps s ip ≡ ok (r, s'))
        × Traded s ip (some r) s'
  unfolding convert_inode_by_mp
  convert-Traded [] s ip h = (ip, s, refl, λ y. refl)
  convert-Traded (mp ∷ mps) s ip h = elim (Bool-cases (mp.origin == ip)) [
    | inl e ↦
        let (s1, frees, given) = free-Traded s ip h in
        (
          mp.target,
          dup fs s1 mp.target,
          rw (convert_inode_by_mp, e, frees, ◌>>=◌) refl,
          λ y. omega (arith, given y, dup-counts s1 mp.target y),
        )
    | inr n ↦
        let (r, s', runs, traded) = convert-Traded mps s ip h in
        (r, s', rw (convert_inode_by_mp, n) runs, traded)
  ]

  -- A reference that was taken is there.
  taken_is_held :
      (s s' : S) (ip r : ℕ) (bs : List ℕ)
      → 1 ≤ fs.ref s ip
      → Taken s ip (some r) bs s'
      → 1 ≤ fs.ref s' r
  taken_is_held s s' ip r bs h t = elim (Bool-cases (r == ip)) [
    | inl e ↦
        let same : fs.ref s r ≡ fs.ref s ip = ap (λ (z : ℕ). fs.ref s z) (ground (arith, e)) in
        ground (arith, t r, e, same, h)
    | inr n ↦ ground (arith, t r, n)
  ]

  Option-cases : (o : Option ℕ) → (o ≡ none) ⊎ ((x : ℕ) × (o ≡ some x))
  Option-cases none = inl refl
  Option-cases (some x) = inr (x, refl)

  descend-missing :
      (mps : List MountPoint) (s s1 s2 : S) (ip : ℕ) (n : List ℕ)
      → Fitting n
      → fs.lookup s ip n ≡ (none, s1)
      → free fs s1 ip ≡ ok s2
      → descend fs mps s ip (name_buffer n) ≡ ok (none, s2)
  unfolding descend
  descend-missing mps s s1 s2 ip n fitting l frees =
      rw (descend, c_string-name_buffer n fitting, l, frees, ◌>>=◌) refl

  descend-found :
      (mps : List MountPoint) (s s1 s2 s3 : S) (ip x r : ℕ) (n : List ℕ)
      → Fitting n
      → fs.lookup s ip n ≡ (some x, s1)
      → free fs s1 ip ≡ ok s2
      → convert_inode_by_mp fs mps s2 x ≡ ok (r, s3)
      → descend fs mps s ip (name_buffer n) ≡ ok (some r, s3)
  unfolding descend
  descend-found mps s s1 s2 s3 ip x r n fitting l frees converts =
      rw (descend, c_string-name_buffer n fitting, l, frees, ◌>>=◌, converts) refl

  descend-Traded :
      (mps : List MountPoint) (s : S) (ip : ℕ) (n : List ℕ)
      → Fitting n
      → 1 ≤ fs.ref s ip
      → (o : Option ℕ) × (s' : S) × (descend fs mps s ip (name_buffer n) ≡ ok (o, s'))
        × Taken s ip o (built_in builds s ip n) s'
  unfolding descend
  descend-Traded mps s ip n fitting h =
      let l = fs.lookup s ip n in
      let looked = λ (y : ℕ). counted.looked s ip n y in
      let kept : 1 ≤ fs.ref l.1 ip = omega (arith, looked ip) in
      let (s2, frees, given) = free-Traded l.1 ip kept in
      elim (Option-cases l.0) [
        | inl e ↦
            let nothing : (y : ℕ) → held l.0 y ≡ 0 = λ y. ap (λ (o : Option ℕ). held o y) e in
            (
              none,
              s2,
              descend-missing mps s l.1 s2 ip n fitting (ap (λ (o : Option ℕ). (o, l.1)) e) frees,
              λ y. omega (arith, looked y, given y, nothing y),
            )
        | inr (x, e) ↦
            let got : (y : ℕ) → held l.0 y ≡ one x y = λ y. ap (λ (o : Option ℕ). held o y) e in
            let bs = built_in builds s ip n in
            let traded : Taken s ip (some x) bs s2 = λ y. omega (arith, looked y, given y, got y) in
            let (r, s3, converts, changed) =
              convert-Traded mps s2 x (taken_is_held s s2 ip x bs h traded) in
            (
              some r,
              s3,
              descend-found mps s l.1 s2 s3 ip x r n fitting (ap (λ (o : Option ℕ). (o, l.1)) e)
                  frees converts,
              λ y. omega (arith, traded y, changed y),
            )
      ]

  resolve-Traded :
      (mps : List MountPoint) (ns : List (List ℕ)) (s : S) (ip : ℕ) (nameiparent : Bool)
      (name : List ℕ)
      → All Fitting ns
      → 1 ≤ fs.ref s ip
      → (o : Option ℕ) × (buf : List ℕ) × (s' : S) × (resolve fs mps s ip ns nameiparent name
          ≡ ok (o, buf, s'))
        × Taken s ip o (built_on fs builds mps s ip ns nameiparent) s'
  unfolding resolve built_on
  resolve-Traded mps [] s ip false name fitting h = (some ip, name, s, refl, λ y. omega arith)
  resolve-Traded mps [] s ip true name fitting h =
      let (s1, frees, given) = free-Traded s ip h in
      (none, name, s1, rw (resolve, frees, ◌>>=◌) refl, λ y. omega (arith, given y))
  resolve-Traded mps (n ∷ ns) s ip nameiparent name (fits, fitting) h =
      elim (Bool-cases (fs.is_dir s ip)) [
        | inr plain ↦
            let (s1, frees, given) = free-Traded s ip h in
            let bs : built_on fs builds mps s ip (n ∷ ns) nameiparent ≡ [] =
              rw (built_on, plain) refl in
            (
              none,
              name_buffer n,
              s1,
              rw (resolve, plain, frees, ◌>>=◌) refl,
              λ y. omega (arith, given y, ap (λ (l : List ℕ). references l y) bs),
            )
        | inl dir ↦ elim (Bool-cases (nameiparent && no_names ns)) [
          | inl stop ↦
              let bs : built_on fs builds mps s ip (n ∷ ns) nameiparent ≡ [] =
                rw (built_on, dir, stop) refl in
              (
                some ip,
                name_buffer n,
                s,
                rw (resolve, dir, stop) refl,
                λ y. omega (arith, ap (λ (l : List ℕ). references l y) bs),
              )
          | inr go ↦
              let (o, s1, steps, traded) = descend-Traded mps s ip n fits h in
              elim (Option-cases o) [
                | inl e ↦
                    let bs : built_on fs builds mps s ip (n ∷ ns) nameiparent
                        ≡ built_in builds s ip n ++ [] =
                      rw (built_on, dir, go, steps, e) refl in
                    (
                      none,
                      name_buffer n,
                      s1,
                      rw (resolve, dir, go, steps, ◌>>=◌, e) refl,
                      λ y. omega (
                        arith,
                        traded y,
                        ap (λ (p : Option ℕ). held p y) e,
                        ap (λ (l : List ℕ). references l y) bs,
                        references-append (built_in builds s ip n) [] y,
                      ),
                    )
                | inr (x, e) ↦
                    let got : Taken s ip (some x) (built_in builds s ip n) s1 =
                      λ y. omega (arith, traded y, ap (λ (p : Option ℕ). held p y) e) in
                    let (o', buf, s2, runs, later) =
                      resolve-Traded mps ns s1 x nameiparent (name_buffer n) fitting
                        (taken_is_held s s1 ip x (built_in builds s ip n) h got) in
                    let more = built_on fs builds mps s1 x ns nameiparent in
                    let bs : built_on fs builds mps s ip (n ∷ ns) nameiparent
                        ≡ built_in builds s ip n ++ more =
                      rw (built_on, dir, go, steps, e) refl in
                    (
                      o',
                      buf,
                      s2,
                      rw (resolve, dir, go, steps, ◌>>=◌, e) runs,
                      λ y. omega (
                        arith,
                        got y,
                        later y,
                        ap (λ (l : List ℕ). references l y) bs,
                        references-append (built_in builds s ip n) more y,
                      ),
                    )
              ]
        ]
      ]

  -- `namex` from a directory of which the caller holds a reference, along a path whose names have fewer
  -- than 35 bytes, with fuel for the bytes of the path: it comes to a result, with or without an inode,
  -- and no count goes below 0 on the way. The caller's reference to the directory has been given back
  -- and one to the inode of the result taken, and each `Lookup` on the way that built a new inode has
  -- left one reference to its directory behind, which nobody gives back; apart from these all counts
  -- are as before. The file systems' `Lookup` is taken to hand out one reference to what it finds and
  -- to take one to the directory when it builds an inode, and nothing else to change a count.
  pub namex-balance :
      (k : ℕ) (mps : List MountPoint) (s : S) (ip : ℕ) (path : List ℕ) (nameiparent : Bool)
      (name : List ℕ)
      → length path < k
      → All Fitting (components path)
      → 1 ≤ fs.ref s ip
      → (o : Option ℕ) × (buf : List ℕ) × (s' : S) × (namex fs k mps s ip path nameiparent name
          ≡ ok (o, buf, s'))
        × ((y : ℕ)
            → fs.ref s' y + one ip y
              ≡ fs.ref s y
                + held o y
                + references (built_on fs builds mps s ip (components path) nameiparent) y)
  namex-balance k mps s ip path nameiparent name enough fitting h =
      let (o, buf, s', runs, traded) =
        resolve-Traded mps (components path) s ip nameiparent name fitting h in
      (o, buf, s', namex-resolve fs mps k s ip path nameiparent name enough ∙ runs, traded)
