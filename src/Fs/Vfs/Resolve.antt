-- ===== src/Fs/Vfs/Resolve.antt =====
-- `namex` of kernel/fs/vfs/vfs.cpp as a walk along the names of a path.
use startos.Prelude.{
  ℕ, zero, suc, ◌<◌, ◌==◌, leb, if◌then◌else◌, ◌&&◌, Bool, true, false, Option, none, some, ◌≡◌,
  ◌≢◌, inl, inr, refl, List, [], ◌∷◌, ◌++◌, length, All, arith, Bool-cases,
}
use startos.Prelude.Run.{Run, ok, panic, fault, ◌>>=◌}
use startos.Fs.Vfs.{FileSystems, MountPoint, name_buffer, c_string, free, descend, namex}
use startos.Fs.Vfs.Path.{components, no_names, skip_element-cases}

-- A name that fits a buffer with its NUL.
abbrev pub Fitting : List ℕ → Type 0
Fitting s = (length s < 35) × All (λ x. x ≢ 0) s

c_string-terminated : (s : List ℕ) → All (λ x. x ≢ 0) s → c_string (s ++ 0 ∷ []) ≡ some s
unfolding c_string
c_string-terminated [] h = refl
c_string-terminated (x ∷ xs) (n, h) =
    let letter : (x == 0) ≡ false = ground (arith, n) in
    rw (c_string, letter, c_string-terminated xs h) refl

pub c_string-name_buffer : (s : List ℕ) → Fitting s → c_string (name_buffer s) ≡ some s
c_string-name_buffer s (short, h) =
    let fits : leb 35 (length s) ≡ false = ground (arith, short) in
    rw fits (c_string-terminated s h)

bind-same :
    {A B : Type 0} (m : Run A) (f h : A → Run B) → ((a : A) → f a ≡ h a) → (m >>= f) ≡ (m >>= h)
bind-same (ok a) f h same = same a
bind-same panic f h same = refl
bind-same fault f h same = refl

module _ {S : Type 0} (fs : FileSystems S) (mps : List MountPoint) where
  -- The walk along names: one directory for each of them, or for each but the last.
  unfoldable pub resolve : S → ℕ → List (List ℕ) → Bool → List ℕ → Run (Option ℕ × List ℕ × S)
  resolve s ip [] nameiparent name =
      if nameiparent then (free fs s ip >>= λ s'. ok (none, name, s')) else ok (some ip, name, s)
  resolve s ip (n ∷ ns) nameiparent name = elim (fs.is_dir s ip) [
    | false ↦ free fs s ip >>= λ s'. ok (none, name_buffer n, s')
    | true ↦ elim (nameiparent && no_names ns) [
      | true ↦ ok (some ip, name_buffer n, s)
      | false ↦ descend fs mps s ip (name_buffer n) >>= λ r. elim r.0 [
        | none ↦ ok (none, name_buffer n, r.1)
        | some next ↦ resolve r.1 next ns nameiparent (name_buffer n)
      ]
    ]
  ]

  same_next :
      (k : ℕ) (o : Option ℕ) (s : S) (rest : List ℕ) (nameiparent : Bool) (name : List ℕ)
      → ((next : ℕ)
          → namex fs k mps s next rest nameiparent name
            ≡ resolve s next (components rest) nameiparent name)
      → elim o as (λ _. Run (Option ℕ × List ℕ × S)) [
        | none ↦ ok (none, name, s)
        | some next ↦ namex fs k mps s next rest nameiparent name
      ]
        ≡ elim o as (λ _. Run (Option ℕ × List ℕ × S)) [
          | none ↦ ok (none, name, s)
          | some next ↦ resolve s next (components rest) nameiparent name
        ]
  same_next k none s rest nameiparent name same = refl
  same_next k (some next) s rest nameiparent name same = same next

  -- `namex` along a path, with fuel for its bytes, is the walk along the names that stand between its
  -- slashes, however many slashes stand before, between and behind them: to the last name, or, for
  -- `nameiparent`, to its directory.
  pub namex-resolve :
      (k : ℕ) (s : S) (ip : ℕ) (path : List ℕ) (nameiparent : Bool) (name : List ℕ)
      → length path < k
      → namex fs k mps s ip path nameiparent name ≡ resolve s ip (components path) nameiparent name
  unfolding namex resolve
  namex-resolve zero s ip path nameiparent name h = absurd (omega arith)
  namex-resolve (suc k) s ip path nameiparent name h = elim (skip_element-cases path) [
    | inl (found, names) ↦ rw (namex, found, names, resolve) refl
    | inr (n, rest, found, names, shorter, empty) ↦
        rw (namex, found, names, resolve)
          (elim (Bool-cases (fs.is_dir s ip)) [
            | inr plain ↦ rw plain refl
            | inl dir ↦
                rw (dir, empty)
                  (elim (Bool-cases (nameiparent && no_names (components rest))) [
                    | inl stop ↦ rw stop refl
                    | inr go ↦ rw go (
                        bind-same (descend fs mps s ip (name_buffer n))
                          (λ r. elim r.0 as (λ o. Run (Option ℕ × List ℕ × S)) [
                            | none ↦ ok (none, name_buffer n, r.1)
                            | some next ↦ namex fs k mps r.1 next rest nameiparent (name_buffer n)
                          ])
                          (λ r. elim r.0 as (λ o. Run (Option ℕ × List ℕ × S)) [
                            | none ↦ ok (none, name_buffer n, r.1)
                            | some next ↦
                                resolve r.1 next (components rest) nameiparent (name_buffer n)
                          ])
                          (λ r. same_next k r.0 r.1 rest nameiparent (name_buffer n) (λ next.
                            namex-resolve k r.1 next rest nameiparent (name_buffer n)
                              (omega arith))))
                  ])
          ])
  ]
