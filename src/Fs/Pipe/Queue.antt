-- ===== src/Fs/Pipe/Queue.antt =====
-- The ring as a queue: the bytes written and not yet read, oldest first.
use startos.Prelude.{
  ℕ, zero, suc, ◌+◌, ◌-◌, ◌%◌, ◌^◌, ◌≤◌, ◌<◌, ◌==◌, ◌≡◌, ◌≢◌, refl, ap, subst, ◌∙◌, List, [], ◌∷◌,
  ◌++◌, length, get_or, set, length-set, get_or-set_self, get_or-set_ne, arith,
}
use startos.Fs.Pipe.{Pipe, wrap, is_empty, is_full, front, advance, put}

-- `k` bytes of the ring from the counter value `i` on.
abbrev pub items : List ℕ → ℕ → ℕ → List ℕ
items d i zero = []
items d i (suc k) = get_or d (i % 512) 0 ∷ items d (wrap (i + 1)) k

-- The counters wrap, so what they differ by is taken modulo 2^32.
unfoldable pub occupancy : Pipe → ℕ
occupancy p = wrap (p.nwrite + 2 ^ 32 - p.nread)

abbrev pub contents : Pipe → List ℕ
contents p = items p.ring p.nread (occupancy p)

pub record IsPipe (p : Pipe) : Type 0 where
  pub ring_len : length p.ring ≡ 512
  pub nwrite_lt : p.nwrite < 2 ^ 32
  pub nread_lt : p.nread < 2 ^ 32
  pub fits : occupancy p ≤ 512

pub length-items : (d : List ℕ) (i k : ℕ) → length (items d i k) ≡ k
length-items d i zero = refl
length-items d i (suc k) = ap suc (length-items d (wrap (i + 1)) k)

-- A write just past `k` bytes of the ring, `k` below the ring's size, appends to them.
items-set :
    (d : List ℕ) (i k w ch : ℕ)
    → length d ≡ 512
    → i < 2 ^ 32
    → k < 512
    → w ≡ wrap (i + k)
    → items (set d (w % 512) ch) i (suc k) ≡ items d i k ++ ch ∷ []
items-set d i zero w ch e h l same =
    let here : w ≡ i = omega (arith, same, h) in
    rw (here, get_or-set_self d (i % 512) ch 0 (omega (arith, e))) refl
items-set d i (suc k) w ch e h l same =
    let apart : w % 512 ≢ i % 512 = λ q. omega (arith, q, same) in
    rw (get_or-set_ne d (w % 512) (i % 512) ch 0 apart) (
      ap (λ (t : List ℕ). get_or d (i % 512) 0 ∷ t)
        (items-set d (wrap (i + 1)) k w ch e (omega arith) (omega arith) (omega (arith, same))))

module _ (p : Pipe) (h : IsPipe p) where
  counted : p.nwrite ≡ wrap (p.nread + occupancy p)
  unfolding occupancy
  counted = omega (arith, h.nwrite_lt, h.nread_lt)

  pub is_full-eq : is_full p ≡ (occupancy p == 512)
  unfolding is_full occupancy
  is_full-eq = ground (arith, h.nwrite_lt, h.nread_lt, h.fits)

  pub is_empty-eq : is_empty p ≡ (occupancy p == 0)
  unfolding is_empty occupancy
  is_empty-eq = ground (arith, h.nwrite_lt, h.nread_lt, h.fits)

  pub put-occupancy : (ch : ℕ) → occupancy p < 512 → occupancy (put p ch) ≡ occupancy p + 1
  unfolding put occupancy
  put-occupancy ch l = omega (arith, h.nwrite_lt, h.nread_lt, l)

  pub put-IsPipe : (ch : ℕ) → occupancy p < 512 → IsPipe (put p ch)
  unfolding put
  put-IsPipe ch l = record {
    ring_len = length-set p.ring (p.nwrite % 512) ch ∙ h.ring_len;
    nwrite_lt = omega arith;
    nread_lt = h.nread_lt;
    fits = omega (arith, put-occupancy ch l);
  }

  pub put-contents : (ch : ℕ) → occupancy p < 512 → contents (put p ch) ≡ contents p ++ ch ∷ []
  unfolding put
  put-contents ch l =
      let one_more : suc (occupancy p) ≡ occupancy (put p ch) = omega (arith, put-occupancy ch l) in
      subst (λ n. items (set p.ring (p.nwrite % 512) ch) p.nread n ≡ contents p ++ ch ∷ []) one_more
        (items-set p.ring p.nread (occupancy p) p.nwrite ch h.ring_len h.nread_lt l counted)

  pub advance-occupancy : 0 < occupancy p → occupancy (advance p) ≡ occupancy p - 1
  unfolding advance occupancy
  advance-occupancy l = omega (arith, h.nwrite_lt, h.nread_lt, h.fits, l)

  pub advance-IsPipe : 0 < occupancy p → IsPipe (advance p)
  unfolding advance
  advance-IsPipe l = record {
    ring_len = h.ring_len;
    nwrite_lt = h.nwrite_lt;
    nread_lt = omega arith;
    fits = omega (arith, advance-occupancy l, h.fits);
  }

  pub front-contents : 0 < occupancy p → contents p ≡ front p ∷ contents (advance p)
  unfolding front advance
  front-contents l =
      let one_more : occupancy p ≡ suc (occupancy p - 1) = omega (arith, l) in
      rw (advance-occupancy l) (ap (λ (n : ℕ). items p.ring p.nread n) one_more)
