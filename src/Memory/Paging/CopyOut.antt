-- ===== src/Memory/Paging/CopyOut.antt =====
-- `copyout` of kernel/memory/VmManager.cpp as a write to the user's addresses.
use startos.Prelude.{
  ℕ, zero, suc, ◌+◌, ◌-◌, ◌*◌, ◌/◌, ◌%◌, ◌^◌, ◌≤◌, ◌<◌, ◌==◌, true, ◌≡◌, ◌≢◌, ◌⊎◌, inl, inr, refl,
  sym, subst, ap, ◌∙◌, List, length, get_or, take, drop, All, length-take, length-drop, get_or-take,
  get_or-drop, All-take, All-drop, arith, Bool-cases, ne→==_false, ltb,
}
use startos.Prelude.Run.{ok}
use startos.Memory.{pground_down, pground_down-eq}
use startos.Memory.Pages.{Memory}
use startos.Memory.Pages.Invariant.{IsPage}
use startos.Memory.Paging.{pte2pa, walk_addr}
use startos.Memory.Paging.Tree.{entry, AtLevel, Places, Owns}
use startos.Memory.Paging.Leaf.{look-page}
use startos.Memory.Paging.Map.{page_code}
use startos.Memory.Paging.Access.{for_user, entry-place, walk_addr-eq}
use startos.Memory.Paging.Copy.{byte_at, write_bytes, chunk, copyout}
use startos.Memory.Paging.Bytes.{byte-write_outside, byte-write_inside, word-write_outside}
use startos.Memory.Paging.Frame.{rewritten-Owns, look-rewritten}

-- The byte that the user finds at an address of the space of `root`.
abbrev pub user_byte : Memory → ℕ → ℕ → ℕ
user_byte s root va = byte_at s.words (pte2pa (entry s root va) + va % 4096)

abbrev pub Bytes : List ℕ → Type 0
Bytes bs = All (λ b. b < 256) bs

-- The user may use the `n` addresses from `va` on.
pub record Usable (s : Memory) (root va n : ℕ) : Type 0 where
  pub in_range : va + n ≤ 2 ^ 38
  pub mapped : (i : ℕ) → i < n → for_user (entry s root (va + i)) ≡ true

-- The bytes `src` were written to the user's addresses from `va` on, and to no other address of any
-- address space; the page tables are as they were.
pub record Copied (end : ℕ) (s : Memory) (ps : List ℕ) (place : Places) (root va : ℕ) (src : List ℕ)
    (s' : Memory) : Type 0 where
  pub owns : Owns end s' ps place
  pub entries : (r vb : ℕ) → AtLevel 2 (place r) → entry s' r vb ≡ entry s r vb
  pub written : (i : ℕ) → i < length src → user_byte s' root (va + i) ≡ get_or src i 0
  pub elsewhere :
      (r vb : ℕ)
      → AtLevel 2 (place r)
      → vb < 2 ^ 38
      → for_user (entry s r vb) ≡ true
      → (place r ≢ place root) ⊎ ((vb < va) ⊎ (va + length src ≤ vb))
      → user_byte s' r vb ≡ user_byte s r vb

module _ (end : ℕ) (pos : 0 < end) (ps : List ℕ) (place : Places) (root : ℕ)
    (at : AtLevel 2 (place root)) where
  -- The physical page of an address that the user may use.
  user_page :
      (s : Memory) (r vb : ℕ)
      → Owns end s ps place
      → AtLevel 2 (place r)
      → vb < 2 ^ 38
      → for_user (entry s r vb) ≡ true
      → IsPage end (pte2pa (entry s r vb)) × (place (pte2pa (entry s r vb)) ≡ page_code place r vb)
  user_page s r vb own up small user =
      let coded = entry-place end s ps place own r vb up small user in
      (own.pages (pte2pa (entry s r vb)) (omega (arith, up)), coded)

  -- A piece that lies in one page.
  piece :
      (s : Memory) (va : ℕ) (bs : List ℕ)
      → Owns end s ps place
      → Bytes bs
      → 1 ≤ length bs
      → va % 4096 + length bs ≤ 4096
      → Usable s root va (length bs)
      → Copied end s ps place root va bs
          (record s { words = write_bytes s.words (pte2pa (entry s root va) + va % 4096) bs })
  piece s va bs own ok_bytes some fits usable =
      let x = pte2pa (entry s root va) in
      let w = write_bytes s.words (x + va % 4096) bs in
      let small : va < 2 ^ 38 = omega (arith, usable.in_range) in
      let no_shift : va + 0 ≡ va = omega arith in
      let user : for_user (entry s root va) ≡ true =
        subst (λ b. for_user (entry s root b) ≡ true) no_shift (usable.mapped 0 (omega arith)) in
      let (page, coded) = user_page s root va own at small user in
      let data_page : 2 ^ 27 ≤ place x = omega (arith, at) in
      let outside : (a : ℕ) → (a + 8 ≤ x) ⊎ (x + 4096 ≤ a) → w a ≡ s.words a =
        λ a out. word-write_outside bs s.words (x + va % 4096) a (ground arith) in
      let looks = look-rewritten end s ps place x w own data_page outside in
      record {
        owns = rewritten-Owns end s ps place x w own data_page outside;
        entries = λ r vb up. looks 2 r vb up;
        written = λ i b.
            let same_page : entry s root (va + i) ≡ entry s root va =
              look-page s.words root (va + i) va (omega arith) in
            let spot : pte2pa (entry s root va) + (va + i) % 4096 ≡ x + va % 4096 + i =
              omega arith in
            ap (λ (e : ℕ). byte_at w (pte2pa e + (va + i) % 4096))
              (looks 2 root (va + i) at ∙ same_page)
            ∙ ap (λ (a : ℕ). byte_at w a) spot
            ∙ byte-write_inside bs s.words (x + va % 4096) i ok_bytes b;
        elsewhere = λ r vb up vb_small vb_user out.
            let y = pte2pa (entry s r vb) in
            let (y_page, y_coded) = user_page s r vb own up vb_small vb_user in
            ap (λ (e : ℕ). byte_at w (pte2pa e + vb % 4096)) (looks 2 r vb up)
            ∙ byte-write_outside bs s.words (x + va % 4096) (y + vb % 4096) ok_bytes
                (elim (Bool-cases (y == x)) [
                  | inl e ↦
                      (let same : y ≡ x = ground arith in
                        let codes : page_code place r vb ≡ page_code place root va =
                          sym y_coded ∙ ap place same ∙ coded in
                        meets (place r) (place root) vb va x y (length bs) same at.1 up.1 codes
                          vb_small small fits out)
                  | inr e ↦
                      (let ne : y ≢ x = ground arith in
                        distinct x y (va % 4096) (vb % 4096) (length bs) page.aligned y_page.aligned
                          ne fits (omega arith))
                ]);
      }
    where
      meets :
          (c d vb va x y n : ℕ)
          → y ≡ x
          → d < 2 ^ 9
          → c < 2 ^ 9
          → c * 2 ^ 27 + vb / 4096 ≡ d * 2 ^ 27 + va / 4096
          → vb < 2 ^ 38
          → va < 2 ^ 38
          → va % 4096 + n ≤ 4096
          → (c ≢ d) ⊎ ((vb < va) ⊎ (va + n ≤ vb))
          → (y + vb % 4096 < x + va % 4096) ⊎ (x + va % 4096 + n ≤ y + vb % 4096)
      meets c d vb va x y n same dl cl codes bl al fits out =
          let spaces : c ≡ d = omega arith in
          let pages : vb / 4096 ≡ va / 4096 = omega arith in
          elim out [
            | inl ne ↦ absurd (ne spaces)
            | inr (inl lt) ↦ inl (omega arith)
            | inr (inr le) ↦ inr (omega arith)
          ]

      distinct :
          (x y i j n : ℕ)
          → x % 4096 ≡ 0
          → y % 4096 ≡ 0
          → y ≢ x
          → i + n ≤ 4096
          → j < 4096
          → (y + j < x + i) ⊎ (x + i + n ≤ y + j)
      distinct x y i j n xa ya ne fits jl = ground arith

  -- Two pieces, one after the other.
  pub Copied-then :
      (s : Memory) (va n : ℕ) (src : List ℕ) (s₁ s₂ : Memory)
      → n ≤ length src
      → va + length src ≤ 2 ^ 38
      → Usable s root va (length src)
      → Copied end s ps place root va (take n src) s₁
      → Copied end s₁ ps place root (va + n) (drop n src) s₂
      → Copied end s ps place root va src s₂
  Copied-then s va n src s₁ s₂ le fits usable c d =
      let taken = length-take n src le in
      let dropped = length-drop n src le in
      record {
        owns = d.owns;
        entries = λ r vb up. d.entries r vb up ∙ c.entries r vb up;
        written = λ i b. elim (Bool-cases (ltb i n)) [
          | inl e ↦
              d.elsewhere root (va + i) at (omega arith)
                (ap for_user (c.entries root (va + i) at) ∙ usable.mapped i b)
                (inr (inl (ground arith)))
              ∙ c.written i (ground (arith, taken))
              ∙ get_or-take n src i 0 (ground arith)
          | inr e ↦
              (let past : n ≤ i = ground arith in
                let there : va + i ≡ va + n + (i - n) = omega arith in
                let index : n + (i - n) ≡ i = omega arith in
                ap (λ (v : ℕ). user_byte s₂ root v) there
                ∙ d.written (i - n) (omega (arith, dropped))
                ∙ get_or-drop n src (i - n) 0
                ∙ ap (λ (j : ℕ). get_or src j 0) index)
        ];
        elsewhere = λ r vb up small user out.
            d.elsewhere r vb up small (ap for_user (c.entries r vb up) ∙ user) (elim out [
              | inl ne ↦ inl ne
              | inr (inl lt) ↦ inr (inl (omega arith))
              | inr (inr past) ↦ inr (inr (omega (arith, dropped)))
            ])
            ∙ c.elsewhere r vb up small user (elim out [
              | inl ne ↦ inl ne
              | inr (inl lt) ↦ inr (inl lt)
              | inr (inr past) ↦ inr (inr (omega (arith, taken)))
            ]);
      }

  -- Where the first byte of a range that the user may use is.
  pub reached :
      (s : Memory) (va n : ℕ)
      → Owns end s ps place
      → 1 ≤ n
      → Usable s root va n
      → (walk_addr s root (pground_down va) ≢ 0)
        × (walk_addr s root (pground_down va) + (va - pground_down va)
            ≡ pte2pa (entry s root va) + va % 4096)
  reached s va n own some usable =
      let small : va < 2 ^ 38 = omega (arith, usable.in_range) in
      let va0 = va / 4096 * 4096 in
      let down : pground_down va ≡ va0 = pground_down-eq va (omega arith) in
      let no_shift : va + 0 ≡ va = omega arith in
      let user : for_user (entry s root va) ≡ true =
        subst (λ b. for_user (entry s root b) ≡ true) no_shift (usable.mapped 0 (omega arith)) in
      let page = (user_page s root va own at small user).0 in
      let same_page : entry s root va0 ≡ entry s root va =
        look-page s.words root va0 va (omega arith) in
      let found : walk_addr s root (pground_down va) ≡ pte2pa (entry s root va) =
        ap (λ (v : ℕ). walk_addr s root v) down
        ∙ walk_addr-eq end s ps place own pos root va0 at (omega arith)
        ∙ rw (same_page, user) refl in
      let offset : va - pground_down va ≡ va % 4096 = rw down (omega arith) in
      (omega (arith, found, page.above), omega (arith, found, offset))

  -- A round of the loop.
  copyout-round :
      (k : ℕ) (s : Memory) (va : ℕ) (src : List ℕ)
      → Owns end s ps place
      → 1 ≤ length src
      → Usable s root va (length src)
      → copyout (suc k) s root va src
        ≡ copyout k
            (record s {
              words =
                  write_bytes s.words
                    (pte2pa (entry s root va) + va % 4096)
                    (take (chunk va (length src)) src);
            })
            root
            (va + chunk va (length src))
            (drop (chunk va (length src)) src)
  unfolding copyout
  copyout-round k s va src own some usable =
      let (some_page, spot) = reached s va (length src) own some usable in
      rw
        (
          copyout,
          ne→==_false (length src) 0 (omega arith),
          ne→==_false (walk_addr s root (pground_down va)) 0 some_page,
        )
        (ap
          (λ (a : ℕ).
            copyout k
              (record s { words = write_bytes s.words a (take (chunk va (length src)) src) }) root
              (va + chunk va (length src)) (drop (chunk va (length src)) src))
          spot)

  -- The round's piece ends with its page or with the bytes.
  pub chunk-fits :
      (va len : ℕ)
      → va < 2 ^ 38
      → 1 ≤ len
      → (1 ≤ chunk va len) × (chunk va len ≤ len) × (va % 4096 + chunk va len ≤ 4096)
  chunk-fits va len small some = let down = pground_down-eq va (omega arith) in omega (arith, down)

  Usable-take :
      (s : Memory) (va n : ℕ) (src : List ℕ)
      → n ≤ length src
      → Usable s root va (length src)
      → Usable s root va (length (take n src))
  Usable-take s va n src le usable =
      let taken = length-take n src le in
      record {
        in_range = omega (arith, taken, usable.in_range);
        mapped = λ i b. usable.mapped i (omega (arith, taken));
      }

  -- What is left stays usable after the piece is written.
  Usable-drop :
      (s s₁ : Memory) (va n : ℕ) (src bs : List ℕ)
      → n ≤ length src
      → Usable s root va (length src)
      → Copied end s ps place root va bs s₁
      → Usable s₁ root (va + n) (length (drop n src))
  Usable-drop s s₁ va n src bs le usable c =
      let dropped = length-drop n src le in
      record {
        in_range = omega (arith, dropped, usable.in_range);
        mapped = λ i b.
            let there : va + n + i ≡ va + (n + i) = omega arith in
            ap for_user (c.entries root (va + n + i) at)
            ∙ ap (λ (v : ℕ). for_user (entry s root v)) there
            ∙ usable.mapped (n + i) (omega (arith, dropped));
      }

  copyout-done :
      (k : ℕ) (s : Memory) (va : ℕ) (src : List ℕ)
      → length src ≡ 0
      → copyout (suc k) s root va src ≡ ok (true, s)
  unfolding copyout
  copyout-done k s va src none_left = rw (copyout, none_left) refl

  nothing-Copied :
      (s : Memory) (va : ℕ) (src : List ℕ)
      → length src ≡ 0
      → Owns end s ps place
      → Copied end s ps place root va src s
  nothing-Copied s va src none_left own = record {
    owns = own;
    entries = λ r vb up. refl;
    written = λ i b. absurd (omega arith);
    elsewhere = λ r vb up small user out. refl;
  }

  copyout_loop :
      (k : ℕ) (s : Memory) (va : ℕ) (src : List ℕ)
      → length src ≤ k
      → Owns end s ps place
      → Bytes src
      → Usable s root va (length src)
      → (s' : Memory) × (copyout (suc k) s root va src ≡ ok (true, s'))
        × Copied end s ps place root va src s'
  copyout_loop zero s va src enough own ok_bytes usable =
      let none_left : length src ≡ 0 = omega arith in
      (s, copyout-done 0 s va src none_left, nothing-Copied s va src none_left own)
  copyout_loop (suc k) s va src enough own ok_bytes usable = elim (Bool-cases (length src == 0)) [
    | inl e ↦
        (let none_left : length src ≡ 0 = ground arith in
          (s, copyout-done (suc k) s va src none_left, nothing-Copied s va src none_left own))
    | inr e ↦
        (let some : 1 ≤ length src = ground arith in
          let n = chunk va (length src) in
          let (n_some, n_le, n_fits) =
            chunk-fits va (length src) (omega (arith, usable.in_range)) some in
          let bs = take n src in
          let taken = length-take n src n_le in
          let c =
            piece s va bs own (All-take (λ b. b < 256) n src ok_bytes) (omega (arith, taken))
              (omega (arith, taken)) (Usable-take s va n src n_le usable) in
          let dropped = length-drop n src n_le in
          let (s₂, ran, d) =
            copyout_loop k
              (record s { words = write_bytes s.words (pte2pa (entry s root va) + va % 4096) bs })
              (va + n) (drop n src) (omega (arith, dropped)) c.owns
              (All-drop (λ b. b < 256) n src ok_bytes)
              (Usable-drop s _ va n src bs n_le usable c) in
          (
            s₂,
            copyout-round (suc k) s va src own some usable ∙ ran,
            Copied-then s va n src _ s₂ n_le usable.in_range usable c d,
          ))
  ]

-- `copyout` to addresses that the user may use, with fuel for its bytes: it returns 0; the addresses
-- hold the bytes; no other address of this or another address space has changed, nor have the page
-- tables.
pub copyout-Copied :
    (end : ℕ) (pos : 0 < end) (ps : List ℕ) (place : Places) (root : ℕ)
    (at : AtLevel 2 (place root)) (k : ℕ) (s : Memory) (va : ℕ) (src : List ℕ)
    → length src ≤ k
    → Owns end s ps place
    → Bytes src
    → Usable s root va (length src)
    → (s' : Memory) × (copyout (suc k) s root va src ≡ ok (true, s'))
      × Copied end s ps place root va src s'
copyout-Copied end pos ps place root at k s va src enough own ok_bytes usable =
    copyout_loop end pos ps place root at k s va src enough own ok_bytes usable
