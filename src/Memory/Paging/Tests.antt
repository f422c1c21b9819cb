-- ===== src/Memory/Paging/Tests.antt =====
-- The theorems at an address space with one page for the user at address 0.
use startos.Prelude.{ℕ, zero, suc, ◌+◌, ◌*◌, ◌/◌, ◌≤◌, true, false, ◌≡◌, refl, [], ◌∷◌, arith}
use startos.Prelude.Run.{ok}
use startos.Memory.Pages.{Memory}
use startos.Memory.Paging.{pte_v, has, descend, walk_addr, mappages}
use startos.Memory.Paging.Tree.{look, entry}
use startos.Memory.Paging.MapRange.{Mapping, mappages-Mapping}
use startos.Memory.Paging.Access.{walk_addr-isolated}
use startos.Memory.Paging.Copy.{copyin, copyout}
use startos.Memory.Paging.CopyOut.{Copied, copyout-Copied}
use startos.Memory.Paging.CopyIn.{copyin-copyout}
use startos.Memory.Paging.Example.{end, root, page, space, places, root-AtLevel, space-Owns, usable}

-- The next two pages have no mapping.
next_free : (i : ℕ) → i ≤ 1 → has pte_v (entry space root (0x1000 + 4096 * i)) ≡ false
unfolding look
next_free zero b = refl
next_free (suc zero) b = refl
next_free (suc (suc i)) b = absurd (omega arith)

mappages-Mapping_example :
    Mapping end space places root 0x1000 0x1000_0000 6 1
      (mappages 2 space root 0x1000 0x2000 0x1000_0000 6)
mappages-Mapping_example =
    mappages-Mapping end (omega arith) root 6 (omega arith) 1 space [] places 0x1000 0x2000
      0x1000_0000 space-Owns root-AtLevel (omega arith) (omega arith) refl (omega arith)
      (omega arith) next_free (λ i b user. absurd (ground arith))

-- The user's page, twice.
page_at : (walk_addr space root 16 ≡ page) × (walk_addr space root 32 ≡ page)
unfolding walk_addr descend
page_at = (refl, refl)

walk_addr-isolated_example : (places root ≡ places root) × (16 / 4096 ≡ 32 / 4096)
walk_addr-isolated_example =
    walk_addr-isolated end space [] places root 16 root 32 space-Owns (omega arith) root-AtLevel
      root-AtLevel (omega arith) (omega arith) (λ e. absurd (omega (arith, page_at)))
      (omega (arith, page_at))

copyout-Copied_example :
    (s' : Memory) × (copyout 3 space root 0x10 (7 ∷ 255 ∷ []) ≡ ok (true, s'))
    × Copied end space [] places root 0x10 (7 ∷ 255 ∷ []) s'
copyout-Copied_example =
    copyout-Copied end (omega arith) [] places root root-AtLevel 2 space 0x10 (7 ∷ 255 ∷ [])
      (omega arith) space-Owns (omega arith) usable

copyin-copyout_example :
    (s' : Memory) × (copyout 3 space root 0x10 (7 ∷ 255 ∷ []) ≡ ok (true, s'))
    × (copyin 3 s' root 0x10 2 ≡ ok (true, 7 ∷ 255 ∷ []))
copyin-copyout_example =
    copyin-copyout end (omega arith) [] places root root-AtLevel 2 space 0x10 (7 ∷ 255 ∷ [])
      (omega arith) space-Owns (omega arith) usable
