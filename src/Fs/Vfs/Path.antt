-- ===== src/Fs/Vfs/Path.antt =====
-- `SkipElememt` of kernel/fs/vfs/vfs.cpp: a path as its names.
use startos.Prelude.{
  ℕ, ◌≤◌, ◌<◌, ◌==◌, if◌then◌else◌, Bool, true, false, none, some, ◌≡◌, ◌⊎◌, inl, inr, refl, sym,
  subst, ap, ◌∙◌, List, [], ◌∷◌, length, arith, Bool-cases,
}
use startos.Fs.Vfs.{slash, skip_slashes, split_name, name_buffer, skip_element, is_empty}

abbrev pub onto_first : ℕ → List (List ℕ) → List (List ℕ)
onto_first x [] = (x ∷ []) ∷ []
onto_first x (s ∷ ss) = (x ∷ s) ∷ ss

-- The pieces of a path between its slashes, the empty ones among them.
abbrev pub pieces : List ℕ → List (List ℕ)
pieces [] = [] ∷ []
pieces (x ∷ xs) = let rest = pieces xs in if x == slash then [] ∷ rest else onto_first x rest

abbrev pub not_empty : List (List ℕ) → List (List ℕ)
not_empty [] = []
not_empty ([] ∷ ss) = not_empty ss
not_empty ((x ∷ s) ∷ ss) = (x ∷ s) ∷ not_empty ss

-- The names of a path.
abbrev pub components : List ℕ → List (List ℕ)
components path = not_empty (pieces path)

module _ (x : ℕ) (xs : List ℕ) where
  pieces-slash : (x == slash) ≡ true → pieces (x ∷ xs) ≡ [] ∷ pieces xs
  pieces-slash e = rw e refl

  pieces-letter : (x == slash) ≡ false → pieces (x ∷ xs) ≡ onto_first x (pieces xs)
  pieces-letter n = rw n refl

  skip_slashes-slash : (x == slash) ≡ true → skip_slashes (x ∷ xs) ≡ skip_slashes xs
  unfolding skip_slashes
  skip_slashes-slash e = rw (skip_slashes, e) refl

  skip_slashes-letter : (x == slash) ≡ false → skip_slashes (x ∷ xs) ≡ x ∷ xs
  unfolding skip_slashes
  skip_slashes-letter n = rw (skip_slashes, n) refl

  split_name-slash : (x == slash) ≡ true → split_name (x ∷ xs) ≡ ([], x ∷ xs)
  unfolding split_name
  split_name-slash e = rw (split_name, e) refl

  split_name-letter :
      (x == slash) ≡ false → split_name (x ∷ xs) ≡ (x ∷ (split_name xs).0, (split_name xs).1)
  unfolding split_name
  split_name-letter n = rw (split_name, n) refl

components-skip_slashes : (path : List ℕ) → components (skip_slashes path) ≡ components path
unfolding skip_slashes
components-skip_slashes [] = refl
components-skip_slashes (x ∷ xs) = elim (Bool-cases (x == slash)) [
  | inl e ↦
      ap components (skip_slashes-slash x xs e)
      ∙ components-skip_slashes xs
      ∙ sym (ap not_empty (pieces-slash x xs e))
  | inr n ↦ ap components (skip_slashes-letter x xs n)
]

-- The first piece is `s`, and the others have the names of `rest`.
abbrev Begins : List ℕ → List ℕ × List ℕ → Type 0
Begins path p =
    (tail : List (List ℕ)) × (pieces path ≡ p.0 ∷ tail) × (components p.1 ≡ not_empty tail)

pieces-split_name : (path : List ℕ) → Begins path (split_name path)
unfolding split_name
pieces-split_name [] = ([], refl, refl)
pieces-split_name (x ∷ xs) = elim (Bool-cases (x == slash)) [
  | inl e ↦
      subst (λ (p : List ℕ × List ℕ). Begins (x ∷ xs) p) (sym (split_name-slash x xs e))
        (pieces xs, pieces-slash x xs e, ap not_empty (pieces-slash x xs e))
  | inr n ↦
      let (tail, whole, rest) = pieces-split_name xs in
      subst (λ (p : List ℕ × List ℕ). Begins (x ∷ xs) p) (sym (split_name-letter x xs n))
        (tail, pieces-letter x xs n ∙ ap (onto_first x) whole, rest)
]

length-skip_slashes : (path : List ℕ) → length (skip_slashes path) ≤ length path
unfolding skip_slashes
length-skip_slashes [] = omega arith
length-skip_slashes (x ∷ xs) = elim (Bool-cases (x == slash)) [
  | inl e ↦ rw (skip_slashes, e) (omega (arith, length-skip_slashes xs))
  | inr n ↦ rw (skip_slashes, n) (omega arith)
]

length-split_name : (path : List ℕ) → length (split_name path).1 ≤ length path
unfolding split_name
length-split_name [] = omega arith
length-split_name (x ∷ xs) = elim (Bool-cases (x == slash)) [
  | inl e ↦ rw (split_name, e) (omega arith)
  | inr n ↦ rw (split_name, n) (omega (arith, length-split_name xs))
]

-- What is left behind the slashes begins with a name.
skip_slashes-cases :
    (path : List ℕ)
    → (skip_slashes path ≡ [])
      ⊎ ((x : ℕ) × (xs : List ℕ) × (skip_slashes path ≡ x ∷ xs) × ((x == slash) ≡ false))
unfolding skip_slashes
skip_slashes-cases [] = inl refl
skip_slashes-cases (x ∷ xs) = elim (Bool-cases (x == slash)) [
  | inl e ↦ rw (skip_slashes, e) (skip_slashes-cases xs)
  | inr n ↦ rw (skip_slashes, n) (inr (x, xs, refl, n))
]

abbrev pub no_names : List (List ℕ) → Bool
no_names [] = true
no_names (_ ∷ _) = false

letter-has_name : (x : ℕ) (ps : List (List ℕ)) → no_names (not_empty (onto_first x ps)) ≡ false
letter-has_name x [] = refl
letter-has_name x (p ∷ ps) = refl

-- Nothing is left exactly if no name is.
is_empty-skip_slashes :
    (path : List ℕ) → is_empty (skip_slashes path) ≡ no_names (components (skip_slashes path))
is_empty-skip_slashes path = elim (skip_slashes-cases path) [
  | inl empty ↦ rw empty refl
  | inr (x, xs, found, letter) ↦
      let named : no_names (components (x ∷ xs)) ≡ false =
        ap (λ (ps : List (List ℕ)). no_names (not_empty ps)) (pieces-letter x xs letter)
        ∙ letter-has_name x (pieces xs) in
      ap is_empty found ∙ sym named ∙ ap (λ (p : List ℕ). no_names (components p)) (sym found)
]

-- `SkipElememt` either finds no name, and the path has none, or it finds the first one, and the rest of
-- the path has the others and is shorter.
pub skip_element-cases :
    (path : List ℕ)
    → ((skip_element path ≡ none) × (components path ≡ []))
      ⊎ ((s rest : List ℕ) × (skip_element path ≡ some (name_buffer s, rest))
          × (components path ≡ s ∷ components rest)
          × (length rest < length path)
          × (is_empty rest ≡ no_names (components rest)))
unfolding skip_element
skip_element-cases path = elim (skip_slashes-cases path) [
  | inl empty ↦
      inl (rw (skip_element, empty) refl, sym (components-skip_slashes path) ∙ ap components empty)
  | inr (x, xs, found, letter) ↦
      let (s, rest) = split_name xs in
      let (tail, whole, others) = pieces-split_name xs in
      let skips = length-skip_slashes path in
      let splits = length-split_name xs in
      let size = ap length found in
      inr (
        x ∷ s,
        skip_slashes rest,
        rw (skip_element, found, split_name-letter x xs letter) refl,
        sym (components-skip_slashes path)
            ∙ ap components found
            ∙ ap not_empty (pieces-letter x xs letter ∙ ap (onto_first x) whole)
            ∙ ap (λ (ps : List (List ℕ)). (x ∷ s) ∷ ps)
                (sym others ∙ sym (components-skip_slashes rest)),
        omega (arith, skips, splits, size, length-skip_slashes rest),
        is_empty-skip_slashes rest,
      )
]
