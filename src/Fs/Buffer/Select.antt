-- ===== src/Fs/Buffer/Select.antt =====
-- Which buffer the scan takes.
use startos.Prelude.{
  ℕ, suc, ◌≤◌, ◌==◌, ltb, ◌&&◌, ◌≡◌, ◌≢◌, refl, subst, ◌∙◌, ap, Bool-cases, inl, inr, Option, none,
  some, List, [], ◌∷◌, ◌++◌, append-nil, append_assoc, length, length-append, All, arith,
}
use startos.Fs.Buffer.{Buf, Earliest, Pick, hit, evict, none_free, pick, consider, scan}

module _ {Block : Type 0} where
  abbrev pub Lacks : ℕ → Buf Block → Type 0
  Lacks wanted b = b.blockno ≢ wanted

  -- Used no later than every free buffer.
  abbrev pub NoLater : ℕ → Buf Block → Type 0
  NoLater tick b = b.refcnt ≡ 0 → tick ≤ b.last_use_tick

  abbrev pub InUse : Buf Block → Type 0
  InUse b = b.refcnt ≢ 0

  -- Buffer `i` of the list is `b`.
  pub data At (bufs : List (Buf Block)) : ℕ → Buf Block → Type 0 where
    at :
        (before : List (Buf Block)) (b : Buf Block) (after : List (Buf Block))
        → bufs ≡ before ++ b ∷ after
        → At bufs (length before) b

  -- `bufs` are the buffers that the scan has passed, `e` the one it would evict.
  pub data Best (bufs : List (Buf Block)) : Option Earliest → Type 0 where
    no_best : All InUse bufs → Best bufs none
    best :
        (i : ℕ) (b : Buf Block)
        → At bufs i b
        → b.refcnt ≡ 0
        → All (NoLater b.last_use_tick) bufs
        → Best bufs (some (record { index = i; tick = b.last_use_tick }))

  -- The first buffer with the block; else a free one, used no later than the other free ones; else none.
  pub data Picked (wanted : ℕ) (bufs : List (Buf Block)) : Pick → Type 0 where
    picks_hit :
        (before : List (Buf Block)) (b : Buf Block) (after : List (Buf Block))
        → bufs ≡ before ++ b ∷ after
        → All (Lacks wanted) before
        → b.blockno ≡ wanted
        → Picked wanted bufs (hit (length before))
    picks_free :
        (i : ℕ) (b : Buf Block)
        → At bufs i b
        → All (Lacks wanted) bufs
        → b.refcnt ≡ 0
        → All (NoLater b.last_use_tick) bufs
        → Picked wanted bufs (evict i)
    picks_none : All (Lacks wanted) bufs → All InUse bufs → Picked wanted bufs none_free

  All-snoc :
      (P : Buf Block → Type 0) (bufs : List (Buf Block)) (b : Buf Block)
      → All P bufs
      → P b
      → All P (bufs ++ b ∷ [])
  All-snoc P [] b ps p = (p, tt)
  All-snoc P (x ∷ xs) b ps p = (ps.0, All-snoc P xs b ps.1 p)

  All-map :
      (P Q : Buf Block → Type 0) (bufs : List (Buf Block))
      → ((b : Buf Block) → P b → Q b)
      → All P bufs
      → All Q bufs
  All-map P Q [] f ps = tt
  All-map P Q (x ∷ xs) f ps = (f x ps.0, All-map P Q xs f ps.1)

  At-snoc :
      (bufs : List (Buf Block)) (i : ℕ) (b x : Buf Block) → At bufs i b → At (bufs ++ x ∷ []) i b
  At-snoc bufs _ _ x (at before b after e) =
      at before b (after ++ x ∷ [])
        (ap (λ (t : List (Buf Block)). t ++ x ∷ []) e ∙ append_assoc before (b ∷ after) (x ∷ []))

  Best-consider :
      (seen : List (Buf Block)) (b : Buf Block) (e : Option Earliest)
      → Best seen e
      → Best (seen ++ b ∷ []) (consider b (length seen) e)
  Best-consider seen b _ (no_best us) = elim (Bool-cases (b.refcnt == 0)) [
    | inl z ↦ rw z (
        best (length seen) b (at seen b [] refl) (ground (arith, z)) (
          All-snoc (NoLater b.last_use_tick) seen b
            (All-map InUse (NoLater b.last_use_tick) seen (λ x u r. absurd (u r)) us)
            (λ r. omega arith)))
    | inr z ↦ rw z (no_best (All-snoc InUse seen b us (λ r. ground (arith, z, r))))
  ]
  Best-consider seen b _ (best i c where_c free_c ls) =
      elim (Bool-cases (b.refcnt == 0 && ltb b.last_use_tick c.last_use_tick)) [
        | inl z ↦
            (let sooner : b.last_use_tick ≤ c.last_use_tick = ground (arith, z) in
              let free_b : b.refcnt ≡ 0 = ground (arith, z) in
              rw z (
                best (length seen) b (at seen b [] refl) free_b (
                  All-snoc (NoLater b.last_use_tick) seen b
                    (All-map (NoLater c.last_use_tick) (NoLater b.last_use_tick) seen
                      (λ x l r. omega (arith, l r, sooner)) ls)
                    (λ r. omega arith))))
        | inr z ↦ rw z (
            best i c (At-snoc seen i c b where_c) free_c
              (All-snoc (NoLater c.last_use_tick) seen b ls (λ r. ground (arith, z, r))))
      ]

  Best-Picked :
      (wanted : ℕ) (bufs : List (Buf Block)) (e : Option Earliest)
      → All (Lacks wanted) bufs
      → Best bufs e
      → Picked wanted bufs (pick e)
  Best-Picked wanted bufs _ ns (no_best us) = picks_none ns us
  Best-Picked wanted bufs _ ns (best i b where_b free_b ls) = picks_free i b where_b ns free_b ls

  scan-Picked :
      (wanted : ℕ) (rest seen : List (Buf Block)) (e : Option Earliest)
      → All (Lacks wanted) seen
      → Best seen e
      → Picked wanted (seen ++ rest) (scan wanted rest (length seen) e)
  scan-Picked wanted [] seen e ns h = rw (append-nil seen) (Best-Picked wanted seen e ns h)
  scan-Picked wanted (b ∷ rest) seen e ns h = elim (Bool-cases (b.blockno == wanted)) [
    | inl q ↦ rw q (picks_hit seen b rest refl ns (ground (arith, q)))
    | inr q ↦ rw q (
        let one_more : length (seen ++ b ∷ []) ≡ suc (length seen) =
          omega (arith, length-append seen (b ∷ [])) in
        let later =
          scan-Picked wanted rest (seen ++ b ∷ []) (consider b (length seen) e)
            (All-snoc (Lacks wanted) seen b ns (λ r. ground (arith, q, r)))
            (Best-consider seen b e h) in
        subst
          (λ t. Picked wanted t (scan wanted rest (suc (length seen)) (consider b (length seen) e)))
          (append_assoc seen (b ∷ []) rest)
          (subst
            (λ n.
              Picked wanted ((seen ++ b ∷ []) ++ rest)
                (scan wanted rest n (consider b (length seen) e)))
            one_more later))
  ]

  -- The scan takes the first buffer that has the block; without one, a buffer out of use that was used
  -- no later than any other out of use; without that either, none, and then all are in use.
  pub scan-cases :
      (wanted : ℕ) (bufs : List (Buf Block)) → Picked wanted bufs (scan wanted bufs 0 none)
  scan-cases wanted bufs = scan-Picked wanted bufs [] none tt (no_best tt)
