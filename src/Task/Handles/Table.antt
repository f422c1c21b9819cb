-- ===== src/Task/Handles/Table.antt =====
-- The table of open files: what a registration stores, and what a look-up gives.
use startos.Prelude.{
  ℕ, zero, suc, ◌+◌, ◌≤◌, ◌<◌, ◌==◌, ltb, ◌&&◌, ◌||◌, not, ◌≡◌, ◌≢◌, refl, sym, Bool, true, false,
  Bool-cases, inl, inr, Option, none, some, List, length, length-set, get_or, set, get_or-set_self,
  get_or-set_ne, arith, ◌⊎◌,
}
use startos.Prelude.Run.{Run, ok, panic}
use startos.Task.Handles.{
  is_negative, first_free, place, register_file_handle, get_file_by_fd, found, alloc_fd,
}

-- What the search for a free entry among the `k` from `i` on finds.
pub data Free (k i : ℕ) (fs : List ℕ) : Option ℕ → Type 0 where
  free_at :
      (j : ℕ)
      → i ≤ j
      → j < i + k
      → get_or fs j 0 ≡ 0
      → ((m : ℕ) → i ≤ m → m < j → get_or fs m 0 ≢ 0)
      → Free k i fs (some j)
  none_free : ((m : ℕ) → i ≤ m → m < i + k → get_or fs m 0 ≢ 0) → Free k i fs none

Free-next :
    (k i : ℕ) (fs : List ℕ) (o : Option ℕ)
    → get_or fs i 0 ≢ 0
    → Free k (suc i) fs o
    → Free (suc k) i fs o
Free-next k i fs _ h (free_at j l b z n) =
    free_at j (omega (arith, l)) (omega (arith, b)) z (λ m lo hi. later m lo hi (m == i) refl)
  where
    later : (m : ℕ) → i ≤ m → m < j → (w : Bool) → (m == i) ≡ w → get_or fs m 0 ≢ 0
    later m lo hi true q = let same : m ≡ i = ground (arith, q) in rw same h
    later m lo hi false q = n m (ground (arith, q, lo)) hi
Free-next k i fs _ h (none_free n) = none_free (λ m lo hi. later m lo hi (m == i) refl)
  where
    later : (m : ℕ) → i ≤ m → m < i + suc k → (w : Bool) → (m == i) ≡ w → get_or fs m 0 ≢ 0
    later m lo hi true q = let same : m ≡ i = ground (arith, q) in rw same h
    later m lo hi false q = n m (ground (arith, q, lo)) (omega (arith, hi))

pub first_free-Free : (k i : ℕ) (fs : List ℕ) → Free k i fs (first_free k i fs)
first_free-Free zero i fs = none_free (λ m lo hi. absurd (omega (arith, lo, hi)))
first_free-Free (suc k) i fs = elim (Bool-cases (get_or fs i 0 == 0)) [
  | inl e ↦ rw e (
      free_at i (omega arith) (omega arith) (ground (arith, e))
        (λ m lo hi. absurd (omega (arith, lo, hi))))
  | inr e ↦ rw e (
      Free-next k i fs (first_free k (suc i) fs) (λ z. ground (arith, e, z))
        (first_free-Free k (suc i) fs))
]

-- A file stands at a descriptor that was free, and every other entry is as before.
pub record Registered (fp fd : ℕ) (fs fs' : List ℕ) : Type 0 where
  pub in_table : fd < 120
  pub was_free : get_or fs fd 0 ≡ 0
  pub found_again : get_file_by_fd fd fs' ≡ ok fp
  pub others : (m : ℕ) → m ≢ fd → get_or fs' m 0 ≡ get_or fs m 0
  pub same_length : length fs' ≡ length fs

-- How a registration ends: refused, with nothing changed; at a descriptor; or with the kernel's stop
-- when a free descriptor was asked for and the whole table is taken.
pub data Registration (fp fd : ℕ) (fs : List ℕ) : Run (Option ℕ × List ℕ) → Type 0 where
  refused :
      (fp ≡ 0) ⊎ ((is_negative fd ≡ false) × ((100 < fd) ⊎ (get_or fs fd 0 ≢ 0)))
      → Registration fp fd fs (ok (none, fs))
  lowest :
      (i : ℕ) (fs' : List ℕ)
      → is_negative fd ≡ true
      → Registered fp i fs fs'
      → ((m : ℕ) → m < i → get_or fs m 0 ≢ 0)
      → Registration fp fd fs (ok (some i, fs'))
  at_number :
      (fs' : List ℕ)
      → is_negative fd ≡ false
      → Registered fp fd fs fs'
      → Registration fp fd fs (ok (some fd, fs'))
  table_full :
      is_negative fd ≡ true → ((m : ℕ) → m < 120 → get_or fs m 0 ≢ 0) → Registration fp fd fs panic

set-Registered :
    (fp i : ℕ) (fs : List ℕ)
    → length fs ≡ 120
    → i < 120
    → get_or fs i 0 ≡ 0
    → Registered fp i fs (set fs i fp)
unfolding get_file_by_fd
set-Registered fp i fs e l z = record {
  in_table = l;
  was_free = z;
  found_again =
      (let positive : (is_negative i || ltb 120 i) ≡ false = ground (arith, l) in
        let inside : ltb i 120 ≡ true = ground (arith, l) in
        rw (positive, inside, get_or-set_self fs i fp 0 (omega (arith, e, l))) refl);
  others = λ m n. get_or-set_ne fs i m fp 0 (λ q. n (sym q));
  same_length = length-set fs i fp;
}

place-Registration :
    (fp fd : ℕ) (fs : List ℕ) (o : Option ℕ)
    → length fs ≡ 120
    → is_negative fd ≡ true
    → Free 120 0 fs o
    → Registration fp fd fs (place fp fs o)
place-Registration fp fd fs _ e n (free_at j lo hi z before) =
    lowest j (set fs j fp) n (set-Registered fp j fs e (omega (arith, hi)) z)
      (λ m l. before m (omega arith) l)
place-Registration fp fd fs _ e n (none_free full) =
    table_full n (λ m l. full m (omega arith) (omega (arith, l)))

-- `registerFileHandle` on a table of 120 entries refuses a null file, a number above 100 and a number
-- that is taken; for a negative number it takes the lowest free descriptor, and stops the kernel when
-- there is none; otherwise it takes the number asked for. Where it gives a descriptor, `getFileByfd`
-- finds the file there and no other entry has changed.
pub register_file_handle-cases :
    (fp fd : ℕ) (fs : List ℕ)
    → length fs ≡ 120
    → Registration fp fd fs (register_file_handle fp fd fs)
unfolding register_file_handle
register_file_handle-cases fp fd fs e =
    elim (Bool-cases (ltb 100 fd && not (is_negative fd) || fp == 0)) [
      | inl r ↦ rw r (refused (why r))
      | inr r ↦ elim (Bool-cases (is_negative fd)) [
        | inl n ↦
            rw (r, n)
              (place-Registration fp fd fs (first_free 120 0 fs) e n (first_free-Free 120 0 fs))
        | inr n ↦ elim (Bool-cases (get_or fs fd 0 == 0)) [
          | inl z ↦
              rw (r, n, z)
                (at_number (set fs fd fp) n
                  (set-Registered fp fd fs e (ground (arith, r, n)) (ground (arith, z))))
          | inr z ↦ rw (r, n, z) (refused (inr (n, inr (λ q. ground (arith, z, q)))))
        ]
      ]
    ]
  where
    why :
        (ltb 100 fd && not (is_negative fd) || fp == 0) ≡ true
        → (fp ≡ 0) ⊎ ((is_negative fd ≡ false) × ((100 < fd) ⊎ (get_or fs fd 0 ≢ 0)))
    why r = elim (Bool-cases (fp == 0)) [
      | inl z ↦ inl (ground (arith, z))
      | inr z ↦ inr (ground (arith, r, z), inl (ground (arith, r, z)))
    ]

-- `AllocFd` without bounds gives the lowest free descriptor of the table, or stops the kernel when the
-- whole table is taken.
pub data Allocation (fs : List ℕ) : Run ℕ → Type 0 where
  lowest_free :
      (i : ℕ)
      → i < 120
      → get_or fs i 0 ≡ 0
      → ((m : ℕ) → m < i → get_or fs m 0 ≢ 0)
      → Allocation fs (ok i)
  all_taken : ((m : ℕ) → m < 120 → get_or fs m 0 ≢ 0) → Allocation fs panic

found-Allocation : (fs : List ℕ) (o : Option ℕ) → Free 120 0 fs o → Allocation fs (found o)
found-Allocation fs _ (free_at j lo hi z before) =
    lowest_free j (omega (arith, hi)) z (λ m l. before m (omega arith) l)
found-Allocation fs _ (none_free full) = all_taken (λ m l. full m (omega arith) (omega (arith, l)))

pub alloc_fd-cases :
    (from to : ℕ) (fs : List ℕ)
    → is_negative from ≡ true
    → is_negative to ≡ true
    → Allocation fs (alloc_fd from to fs)
unfolding alloc_fd
alloc_fd-cases from to fs f t =
    rw (f, t) (found-Allocation fs (first_free 120 0 fs) (first_free-Free 120 0 fs))
