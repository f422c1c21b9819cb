-- ===== src/Memory/Paging/CopyIn.antt =====
-- `copyin` of kernel/memory/VmManager.cpp as a read of the user's addresses, and what it reads after
-- `copyout`.
use startos.Prelude.{
  ℕ, zero, suc, ◌+◌, ◌-◌, ◌%◌, ◌≤◌, ◌<◌, true, ◌≡◌, refl, sym, ap, ◌∙◌, List, [], ◌∷◌, ◌++◌, length,
  get_or, take, drop, length-take, length-drop, get_or-take, get_or-drop, take-drop, arith,
  ne→==_false,
}
use startos.Prelude.Run.{ok}
use startos.Memory.{pground_down}
use startos.Memory.Pages.{Memory}
use startos.Memory.Paging.{pte2pa, walk_addr}
use startos.Memory.Paging.Tree.{entry, AtLevel, Places, Owns}
use startos.Memory.Paging.Leaf.{look-page}
use startos.Memory.Paging.Access.{for_user}
use startos.Memory.Paging.Copy.{byte_at, read_bytes, chunk, copyin, copyout}
use startos.Memory.Paging.Bytes.{read_bytes-eq}
use startos.Memory.Paging.CopyOut.{user_byte, Bytes, Usable, reached, chunk-fits, copyout-Copied}

-- The user finds `bs` at the addresses from `va` on.
abbrev pub Found : Memory → ℕ → ℕ → List ℕ → Type 0
Found s root va bs = (i : ℕ) → i < length bs → user_byte s root (va + i) ≡ get_or bs i 0

module _ (end : ℕ) (pos : 0 < end) (ps : List ℕ) (place : Places) (root : ℕ)
    (at : AtLevel 2 (place root)) (s : Memory) (own : Owns end s ps place) where
  -- The piece in the first page.
  read-chunk :
      (va n : ℕ) (bs : List ℕ)
      → n ≤ length bs
      → va % 4096 + n ≤ 4096
      → Found s root va bs
      → read_bytes s.words (pte2pa (entry s root va) + va % 4096) n ≡ take n bs
  read-chunk va n bs le fits found =
      let taken = length-take n bs le in
      let a = pte2pa (entry s root va) + va % 4096 in
      ap (λ (m : ℕ). read_bytes s.words a m) (sym taken)
      ∙ read_bytes-eq (take n bs) s.words a (λ i b. here i (omega (arith, taken)))
    where
      here :
          (i : ℕ)
          → i < n
          → byte_at s.words (pte2pa (entry s root va) + va % 4096 + i) ≡ get_or (take n bs) i 0
      here i b =
          let same_page : entry s root (va + i) ≡ entry s root va =
            look-page s.words root (va + i) va (omega arith) in
          let spot : pte2pa (entry s root va) + va % 4096 + i
              ≡ pte2pa (entry s root va) + (va + i) % 4096 =
            omega arith in
          ap (λ (c : ℕ). byte_at s.words c) spot
          ∙ ap (λ (e : ℕ). byte_at s.words (pte2pa e + (va + i) % 4096)) (sym same_page)
          ∙ found i (omega arith)
          ∙ sym (get_or-take n bs i 0 b)

  copyin-done : (k va : ℕ) → copyin (suc k) s root va 0 ≡ ok (true, [])
  unfolding copyin
  copyin-done k va = refl

  copyin-round :
      (k va : ℕ) (len : ℕ) (rest : List ℕ)
      → 1 ≤ len
      → Usable s root va len
      → copyin k s root (va + chunk va len) (len - chunk va len) ≡ ok (true, rest)
      → copyin (suc k) s root va len
        ≡ ok
            (true, read_bytes s.words (pte2pa (entry s root va) + va % 4096) (chunk va len) ++ rest)
  unfolding copyin
  copyin-round k va len rest some usable below =
      let (some_page, spot) = reached end pos ps place root at s va len own some usable in
      rw
        (
          copyin,
          ne→==_false len 0 (omega arith),
          ne→==_false (walk_addr s root (pground_down va)) 0 some_page,
          below,
          spot,
        )
        refl

  copyin_loop :
      (k va : ℕ) (bs : List ℕ)
      → length bs ≤ k
      → Usable s root va (length bs)
      → Found s root va bs
      → copyin (suc k) s root va (length bs) ≡ ok (true, bs)
  copyin_loop k va [] enough usable found = copyin-done k va
  copyin_loop zero va (b ∷ bs) enough usable found = absurd (omega arith)
  copyin_loop (suc k) va (b ∷ bs) enough usable found =
      let all = b ∷ bs in
      let n = chunk va (length all) in
      let (n_some, n_le, n_fits) =
        chunk-fits end pos ps place root at va (length all) (omega (arith, usable.in_range))
          (omega arith) in
      let dropped = length-drop n all n_le in
      let left : length all - n ≡ length (drop n all) = omega (arith, dropped) in
      let below =
        copyin_loop k (va + n) (drop n all) (omega (arith, dropped))
          (record {
            in_range = omega (arith, dropped, usable.in_range);
            mapped = λ i h.
                let there : va + n + i ≡ va + (n + i) = omega arith in
                ap (λ (v : ℕ). for_user (entry s root v)) there
                ∙ usable.mapped (n + i) (omega (arith, dropped));
          })
          (λ i h.
            let there : va + n + i ≡ va + (n + i) = omega arith in
            ap (λ (v : ℕ). user_byte s root v) there
            ∙ found (n + i) (omega (arith, dropped))
            ∙ sym (get_or-drop n all i 0)) in
      copyin-round (suc k) va (length all) (drop n all) (omega arith) usable
        (ap (λ (m : ℕ). copyin (suc k) s root (va + n) m) left ∙ below)
      ∙ ap (λ (front : List ℕ). ok (true, front ++ drop n all))
          (read-chunk va n all n_le n_fits found)
      ∙ ap (λ (t : List ℕ). ok (true, t)) (take-drop n all)

-- `copyin` from addresses that the user may use, with fuel for its bytes, returns 0 with the bytes
-- that the user finds there.
pub copyin-Found :
    (end : ℕ) (pos : 0 < end) (ps : List ℕ) (place : Places) (root : ℕ)
    (at : AtLevel 2 (place root)) (s : Memory)
    → Owns end s ps place
    → (k va : ℕ) (bs : List ℕ) → length bs ≤ k
    → Usable s root va (length bs)
    → Found s root va bs
    → copyin (suc k) s root va (length bs) ≡ ok (true, bs)
copyin-Found end pos ps place root at s own k va bs enough usable found =
    copyin_loop end pos ps place root at s own k va bs enough usable found

-- What `copyout` has put at addresses that the user may use, `copyin` takes from there.
pub copyin-copyout :
    (end : ℕ) (pos : 0 < end) (ps : List ℕ) (place : Places) (root : ℕ)
    (at : AtLevel 2 (place root)) (k : ℕ) (s : Memory) (va : ℕ) (src : List ℕ)
    → length src ≤ k
    → Owns end s ps place
    → Bytes src
    → Usable s root va (length src)
    → (s' : Memory) × (copyout (suc k) s root va src ≡ ok (true, s'))
      × (copyin (suc k) s' root va (length src) ≡ ok (true, src))
copyin-copyout end pos ps place root at k s va src enough own ok_bytes usable =
    let (s', ran, c) =
      copyout-Copied end pos ps place root at k s va src enough own ok_bytes usable in
    let usable' : Usable s' root va (length src) = record {
      in_range = usable.in_range;
      mapped = λ i b. ap for_user (c.entries root (va + i) at) ∙ usable.mapped i b;
    } in
    (s', ran, copyin-Found end pos ps place root at s' c.owns k va src enough usable' c.written)
