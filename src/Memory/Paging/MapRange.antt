-- ===== src/Memory/Paging/MapRange.antt =====
-- The loop of `mappages` of kernel/memory/VmManager.cpp over a range of pages.
use startos.Prelude.{
  ℕ, zero, suc, ◌+◌, ◌-◌, ◌*◌, ◌/◌, ◌%◌, ◌^◌, ◌≤◌, ◌<◌, ◌==◌, Bool, true, false, ◌≡◌, ◌≢◌, ◌⊎◌, inl,
  inr, refl, sym, subst, ap, ◌∙◌, List, [], arith, ne→==_false, leb,
}
use startos.Prelude.Run.{Run, ok, ◌>>=◌}
use startos.Memory.{pgsize, pground_down, pground_down-eq}
use startos.Memory.Pages.{Memory}
use startos.Memory.Paging.{pte_v, pte_u, has, pte2pa, descend, walk, set_pte, map_loop, mappages}
use startos.Memory.Paging.Tree.{entry, AtLevel, AtLevel-some, Places, Owns}
use startos.Memory.Paging.Leaf.{pte_of, pte_of-fields}
use startos.Memory.Paging.Map.{page_code, Remapped, Set, descend-Round}

pub walk-eq :
    (s : Memory) (root va : ℕ) (may : Bool)
    → va < 2 ^ 38
    → walk s root va may ≡ ok (descend 2 s root va may)
unfolding walk
walk-eq s root va may small =
    let in_range : leb (2 ^ 38) va ≡ false = ground arith in rw (walk, in_range) refl

loop-dry :
    (k : ℕ) (s : Memory) (root a last pa perm : ℕ)
    → a < 2 ^ 38
    → (descend 2 s root a true).0 ≡ 0
    → map_loop (suc k) s root a last pa perm ≡ ok (false, (descend 2 s root a true).1)
unfolding map_loop
loop-dry k s root a last pa perm small null = rw (map_loop, walk-eq s root a true small, null) refl

-- A round at an invalid entry sets it and stops at the last page or goes on.
loop-set :
    (k : ℕ) (s : Memory) (root a last pa perm : ℕ) (r : ℕ × Memory)
    → a < 2 ^ 38
    → descend 2 s root a true ≡ r
    → r.0 ≢ 0
    → has pte_v (r.1.words r.0) ≡ false
    → map_loop (suc k) s root a last pa perm ≡ (elim (a == last) [
      | true ↦ ok (true, set_pte r.1 r.0 (pte_of pa perm))
      | false ↦
          map_loop k
            (set_pte r.1 r.0 (pte_of pa perm))
            root
            ((a + pgsize) % 2 ^ 64)
            last
            ((pa + pgsize) % 2 ^ 64)
            perm
    ])
unfolding map_loop
loop-set k s root a last pa perm r small e =
    subst
      (λ (q : ℕ × Memory).
        q.0 ≢ 0
        → has pte_v (q.1.words q.0) ≡ false
        → map_loop (suc k) s root a last pa perm ≡ (elim (a == last) [
          | true ↦ ok (true, set_pte q.1 q.0 (pte_of pa perm))
          | false ↦
              map_loop k (set_pte q.1 q.0 (pte_of pa perm)) root ((a + pgsize) % 2 ^ 64) last
                ((pa + pgsize) % 2 ^ 64) perm
        ]))
      e
      λ some new.
        rw
          (
            map_loop,
            walk-eq s root a true small,
            ◌>>=◌,
            ne→==_false (descend 2 s root a true).0 0 some,
            new,
          )
          refl

plus_none : (a : ℕ) → a + 4096 * 0 ≡ a
plus_none a = omega arith

shift : (a i : ℕ) → a + 4096 + 4096 * i ≡ a + 4096 * suc i
shift a i = omega arith

-- What is known of the rounds after the first, if there are any.
abbrev pub More : ℕ → ℕ → (ℕ → ℕ → Type 0) → Type 0
More zero k P = Unit
More (suc n) zero P = Unit
More (suc n) (suc k) P = P n k

-- The first `m` of the pages from `a` on were mapped to those from `pa` on, and no other entry of
-- any address space changed.
pub record MappedPages (s : Memory) (place : Places) (root a pa perm m : ℕ) (s' : Memory)
    : Type 0 where
  pub mapped : (i : ℕ) → i < m → entry s' root (a + 4096 * i) ≡ pte_of (pa + 4096 * i) perm
  pub elsewhere :
      (r vb : ℕ)
      → AtLevel 2 (place r)
      → vb < 2 ^ 38
      → ((i : ℕ) → i < m → page_code place r vb ≢ page_code place root (a + 4096 * i))
      → entry s' r vb ≡ entry s r vb

-- How mapping `n` more pages than one ends: with all of them mapped, or out of memory.
pub record Mapping (end : ℕ) (s : Memory) (place : Places) (root a pa perm n : ℕ)
    (out : Run (Bool × Memory)) : Type 0 where
  pub all : Bool
  pub after : Memory
  pub ps' : List ℕ
  pub place' : Places
  pub m : ℕ
  pub returned : out ≡ ok (all, after)
  pub remapped : Remapped end s place after ps' place'
  pub pages : MappedPages s place root a pa perm m after
  pub ended : ((all ≡ true) × (m ≡ suc n)) ⊎ ((all ≡ false) × (ps' ≡ []) × (m ≤ n))

module _ (end : ℕ) (pos : 0 < end) (root perm : ℕ) (flags : perm < 1024) where
  abbrev pub Free : Memory → ℕ → ℕ → Type 0
  Free s a n = (i : ℕ) → i ≤ n → has pte_v (entry s root (a + 4096 * i)) ≡ false

  -- Pages that the user may use are the ones whose codes say so.
  abbrev pub Right : Places → ℕ → ℕ → ℕ → Type 0
  Right place a pa n =
      (i : ℕ)
      → i ≤ n
      → has pte_u perm ≡ true
      → place (pa + 4096 * i) ≡ page_code place root (a + 4096 * i)

  -- A round's own part of `Right`.
  first_page :
      (place : Places) (a pa n : ℕ)
      → pa % 4096 ≡ 0
      → pa < 2 ^ 56
      → Right place a pa n
      → has pte_v (pte_of pa perm) ≡ true
      → has pte_u (pte_of pa perm) ≡ true
      → place (pte2pa (pte_of pa perm)) ≡ page_code place root a
  first_page place a pa n al small right valid for_user =
      let fields = pte_of-fields pa perm al small flags in
      ap place fields.0
      ∙ subst (λ b. place b ≡ page_code place root a) (plus_none pa)
          (subst (λ b. place (pa + 4096 * 0) ≡ page_code place root b) (plus_none a)
            (right 0 (omega arith) (sym fields.1 ∙ for_user)))

  -- The rounds that follow a first one.
  first_then :
      (n : ℕ) (s : Memory) (place : Places) (a pa : ℕ) (s₁ : Memory) (ps₁ : List ℕ)
      (place₁ : Places) (out : Run (Bool × Memory))
      → AtLevel 2 (place root)
      → a + 4096 * suc n < 2 ^ 38
      → Remapped end s place s₁ ps₁ place₁
      → Set s place root a (pte_of pa perm) s₁
      → Mapping end s₁ place₁ root (a + 4096) (pa + 4096) perm n out
      → Mapping end s place root a pa perm (suc n) out
  first_then n s place a pa s₁ ps₁ place₁ out at fits r₁ set rest =
      let r₂ = rest.remapped in
      let root_code : place₁ root ≡ place root = r₁.codes root (AtLevel-some 2 (place root) at) in
      record {
        all = rest.all;
        after = rest.after;
        ps' = rest.ps';
        place' = rest.place';
        m = suc rest.m;
        returned = rest.returned;
        remapped = record {
          owns = r₂.owns;
          codes = λ u c. r₂.codes u (rw (r₁.codes u c) c) ∙ r₁.codes u c;
          spared = λ u b c lo hi.
              r₂.spared u b (rw (r₁.codes u (omega arith)) c) lo hi ∙ r₁.spared u b c lo hi;
        };
        pages = record {
          mapped = λ i b. mapped i b;
          elsewhere = λ r vb up small ne. elsewhere r vb up small ne;
        };
        ended = elim rest.ended [
          | inl (whole, e) ↦ inl (whole, ap suc e)
          | inr (part, dry, b) ↦ inr (part, dry, omega arith)
        ];
      }
    where
      root_code₁ : place₁ root ≡ place root
      root_code₁ = r₁.codes root (AtLevel-some 2 (place root) at)

      m_small : rest.m ≤ suc n
      m_small = elim rest.ended [ inl (whole, e) ↦ omega arith | inr (part, dry, b) ↦ omega arith ]

      mapped :
          (i : ℕ)
          → i < suc rest.m
          → entry rest.after root (a + 4096 * i) ≡ pte_of (pa + 4096 * i) perm
      mapped zero b =
          let away : entry rest.after root a ≡ entry s₁ root a =
            rest.pages.elsewhere root a (rw root_code₁ at) (omega arith) (λ i c e. absurd (
              let pages_differ : page_code place₁ root a
                  ≡ page_code place₁ root (a + 4096 + 4096 * i) =
                e in
              omega arith)) in
          subst (λ b. entry rest.after root b ≡ pte_of (pa + 4096 * 0) perm) (sym (plus_none a))
            (subst (λ b. entry rest.after root a ≡ pte_of b perm) (sym (plus_none pa))
              (away ∙ set.here))
      mapped (suc i) b =
          subst (λ c. entry rest.after root c ≡ pte_of (pa + 4096 * suc i) perm) (shift a i)
            (subst (λ c. entry rest.after root (a + 4096 + 4096 * i) ≡ pte_of c perm) (shift pa i)
              (rest.pages.mapped i (omega arith)))

      elsewhere :
          (r vb : ℕ)
          → AtLevel 2 (place r)
          → vb < 2 ^ 38
          → ((i : ℕ) → i < suc rest.m → page_code place r vb ≢ page_code place root (a + 4096 * i))
          → entry rest.after r vb ≡ entry s r vb
      elsewhere r vb up small ne =
          let r_code : place₁ r ≡ place r = r₁.codes r (AtLevel-some 2 (place r) up) in
          rest.pages.elsewhere r vb (rw r_code up) small
            (λ i b e. ne (suc i) (omega arith) (omega (arith, shift a i)))
          ∙ set.elsewhere r vb up small (λ e. ne 0 (omega arith) (omega arith))

  -- Past the first entry, given how the other rounds end.
  go_on :
      (n k : ℕ) (s : Memory) (place : Places) (a pa : ℕ)
      → n ≤ k
      → AtLevel 2 (place root)
      → a + 4096 * n < 2 ^ 38
      → pa + 4096 * n < 2 ^ 56
      → (r : ℕ × Memory) → descend 2 s root a true ≡ r
      → r.0 ≢ 0
      → has pte_v (r.1.words r.0) ≡ false
      → (ps₁ : List ℕ) (place₁ : Places)
      → Remapped end s place (set_pte r.1 r.0 (pte_of pa perm)) ps₁ place₁
      → Set s place root a (pte_of pa perm) (set_pte r.1 r.0 (pte_of pa perm))
      → More n k (λ n' k'.
        Mapping end (set_pte r.1 r.0 (pte_of pa perm)) place₁ root (a + 4096) (pa + 4096) perm n' (
          map_loop
            (suc k')
            (set_pte r.1 r.0 (pte_of pa perm))
            root
            (a + 4096)
            (a + 4096 + 4096 * n')
            (pa + 4096)
            perm))
      → Mapping end s place root a pa perm n (map_loop (suc k) s root a (a + 4096 * n) pa perm)
  go_on zero k s place a pa enough at a_fits pa_fits r e some new ps₁ place₁ remap set rest =
      let last : (a == a + 4096 * 0) ≡ true = ground arith in
      record {
        all = true;
        after = set_pte r.1 r.0 (pte_of pa perm);
        ps' = ps₁;
        place' = place₁;
        m = 1;
        returned =
            loop-set k s root a (a + 4096 * 0) pa perm r (omega arith) e some new ∙ rw last refl;
        remapped = remap;
        pages = record {
          mapped = λ i b.
              (let first : i ≡ 0 = omega arith in
                subst
                  (λ j.
                    entry (set_pte r.1 r.0 (pte_of pa perm)) root (a + 4096 * j)
                    ≡ pte_of (pa + 4096 * j) perm)
                  (sym first)
                  (subst
                    (λ b.
                      entry (set_pte r.1 r.0 (pte_of pa perm)) root b ≡ pte_of (pa + 4096 * 0) perm)
                    (sym (plus_none a))
                    (subst (λ b. entry (set_pte r.1 r.0 (pte_of pa perm)) root a ≡ pte_of b perm)
                      (sym (plus_none pa)) set.here)));
          elsewhere = λ u vb up small ne.
              set.elsewhere u vb up small (λ q. ne 0 (omega arith) (omega arith));
        };
        ended = inl (refl, refl);
      }
  go_on (suc n) zero s place a pa enough at a_fits pa_fits r e some new ps₁ place₁ remap set rest =
      absurd (omega arith)
  go_on (suc n) (suc k) s place a pa enough at a_fits pa_fits r e some new ps₁ place₁ remap set
        rest =
      let more : (a == a + 4096 * suc n) ≡ false = ground arith in
      let a_next : (a + pgsize) % 2 ^ 64 ≡ a + 4096 = omega arith in
      let pa_next : (pa + pgsize) % 2 ^ 64 ≡ pa + 4096 = omega arith in
      let s₁ = set_pte r.1 r.0 (pte_of pa perm) in
      let unrolled : map_loop (suc (suc k)) s root a (a + 4096 * suc n) pa perm
          ≡ map_loop (suc k) s₁ root (a + 4096) (a + 4096 * suc n) (pa + 4096) perm =
        loop-set (suc k) s root a (a + 4096 * suc n) pa perm r (omega arith) e some new
        ∙ rw (more, a_next, pa_next) refl in
      subst (λ out. Mapping end s place root a pa perm (suc n) out) (sym unrolled)
        (subst
          (λ last.
            Mapping end s place root a pa perm (suc n)
              (map_loop (suc k) s₁ root (a + 4096) last (pa + 4096) perm))
          (shift a n) (first_then n s place a pa s₁ ps₁ place₁ _ at a_fits remap set rest))

  first_round :
      (n k : ℕ) (s : Memory) (ps : List ℕ) (place : Places) (a pa : ℕ)
      → n ≤ k
      → Owns end s ps place
      → AtLevel 2 (place root)
      → a % 4096 ≡ 0
      → pa % 4096 ≡ 0
      → a + 4096 * n < 2 ^ 38
      → pa + 4096 * n < 2 ^ 56
      → Free s a n
      → Right place a pa n
      → ((s₁ : Memory) (ps₁ : List ℕ) (place₁ : Places)
          → Remapped end s place s₁ ps₁ place₁
          → Set s place root a (pte_of pa perm) s₁
          → More n k (λ n' k'.
            Mapping end s₁ place₁ root
              (a + 4096)
              (pa + 4096)
              perm
              n'
              (map_loop (suc k') s₁ root (a + 4096) (a + 4096 + 4096 * n') (pa + 4096) perm)))
      → Mapping end s place root a pa perm n (map_loop (suc k) s root a (a + 4096 * n) pa perm)
  first_round n k s ps place a pa enough own at a_al pa_al a_fits pa_fits free right rest =
      let r = descend 2 s root a true in
      let round =
        descend-Round end pos s ps place root a (pte_of pa perm) own at (omega arith)
          (first_page place a pa n pa_al (omega arith) right) in
      elim round.outcome [
        | inl (null, dry, remap, same) ↦ record {
          all = false;
          after = r.1;
          ps' = round.ps';
          place' = round.place';
          m = 0;
          returned = loop-dry k s root a (a + 4096 * n) pa perm (omega arith) null;
          remapped = remap;
          pages = record {
            mapped = λ i b. absurd (omega arith);
            elsewhere = λ u vb up small ne. same u vb up;
          };
          ended = inr (refl, dry, omega arith);
        }
        | inr (some, was, remap, set) ↦
            (let new : has pte_v (r.1.words r.0) ≡ false =
                ap (λ (e : ℕ). has pte_v e) was
                ∙ subst (λ b. has pte_v (entry s root b) ≡ false) (plus_none a)
                    (free 0 (omega arith)) in
              go_on n k s place a pa enough at a_fits pa_fits r refl some new round.ps' round.place'
                remap set (rest _ round.ps' round.place' remap set))
      ]

  pub map_loop-Mapping :
      (n k : ℕ) (s : Memory) (ps : List ℕ) (place : Places) (a pa : ℕ)
      → n ≤ k
      → Owns end s ps place
      → AtLevel 2 (place root)
      → a % 4096 ≡ 0
      → pa % 4096 ≡ 0
      → a + 4096 * n < 2 ^ 38
      → pa + 4096 * n < 2 ^ 56
      → Free s a n
      → Right place a pa n
      → Mapping end s place root a pa perm n (map_loop (suc k) s root a (a + 4096 * n) pa perm)
  map_loop-Mapping zero k s ps place a pa enough own at a_al pa_al a_fits pa_fits free right =
      first_round zero k s ps place a pa enough own at a_al pa_al a_fits pa_fits free right
        λ s₁ ps₁ place₁ remap set. tt
  map_loop-Mapping (suc n) zero s ps place a pa enough own at a_al pa_al a_fits pa_fits free right =
      absurd (omega arith)
  map_loop-Mapping (suc n) (suc k) s ps place a pa enough own at a_al pa_al a_fits pa_fits free
        right =
      first_round (suc n) (suc k) s ps place a pa enough own at a_al pa_al a_fits pa_fits free right
        λ s₁ ps₁ place₁ remap set.
          let root_code : place₁ root ≡ place root =
            remap.codes root (AtLevel-some 2 (place root) at) in
          map_loop-Mapping n k s₁ ps₁ place₁ (a + 4096) (pa + 4096) (omega arith) remap.owns
            (rw root_code at) (omega arith) (omega arith) (omega arith) (omega arith)
            (λ i b.
              ap (λ (e : ℕ). has pte_v e)
                (set.elsewhere root (a + 4096 + 4096 * i) at (omega arith)
                  (λ e. absurd (omega arith)))
              ∙ subst (λ b. has pte_v (entry s root b) ≡ false) (sym (shift a i))
                  (free (suc i) (omega arith)))
            (λ i b for_user.
              let coded = right (suc i) (omega arith) for_user in
              subst (λ b. place₁ b ≡ page_code place₁ root (a + 4096 + 4096 * i)) (sym (shift pa i))
                (remap.codes (pa + 4096 * suc i) (omega arith)
                  ∙ coded
                  ∙ omega (arith, root_code, shift a i)))

-- `mappages` on a range that has no mapping yet, with fuel for its pages: it returns; the pages from
-- the one of `va` to the one of the last byte are mapped to consecutive physical pages, all of them or,
-- when no page was left for a table, the first ones; no other entry of any address space changes, and
-- neither do the pages of memory.
pub mappages-Mapping :
    (end : ℕ) (pos : 0 < end) (root perm : ℕ) (flags : perm < 1024) (k : ℕ) (s : Memory)
    (ps : List ℕ) (place : Places) (va size pa : ℕ)
    → Owns end s ps place
    → AtLevel 2 (place root)
    → 0 < size
    → va + size ≤ 2 ^ 38
    → pa % 4096 ≡ 0
    → pa + (va + size) < 2 ^ 56
    → (va + size - 1) / 4096 - va / 4096 ≤ k
    → Free end pos root perm flags s (va / 4096 * 4096) ((va + size - 1) / 4096 - va / 4096)
    → Right end pos root perm flags place (va / 4096 * 4096) pa ((va + size - 1) / 4096 - va / 4096)
    → Mapping end s place root
        (va / 4096 * 4096)
        pa
        perm
        ((va + size - 1) / 4096 - va / 4096)
        (mappages (suc k) s root va size pa perm)
unfolding mappages
mappages-Mapping end pos root perm flags k s ps place va size pa own at some fits pa_al pa_fits
      enough free right =
    let n = (va + size - 1) / 4096 - va / 4096 in
    let from : pground_down va ≡ va / 4096 * 4096 = pground_down-eq va (omega arith) in
    let end_of : (va + size + 2 ^ 64 - 1) % 2 ^ 64 ≡ va + size - 1 = omega arith in
    let to : pground_down (va + size - 1) ≡ va / 4096 * 4096 + 4096 * n =
      pground_down-eq (va + size - 1) (omega arith) ∙ omega arith in
    rw (mappages, end_of, from, to)
      (map_loop-Mapping end pos root perm flags n k s ps place (va / 4096 * 4096) pa enough own at
        (omega arith) pa_al (omega arith) (omega arith) free right)
