-- ===== src/Memory/Paging/Example.antt =====
-- An address space with one page for the user at address 0, for the tests.
use startos.Prelude.{ℕ, zero, suc, ◌+◌, ◌^◌, ◌<◌, ◌==◌, if◌then◌else◌, true, ◌≡◌, refl, [], arith}
use startos.Memory.Pages.{Memory}
use startos.Memory.Paging.Tree.{look, entry, AtLevel, Places, Owns}
use startos.Memory.Paging.Access.{for_user}
use startos.Memory.Paging.CopyOut.{Usable}

-- The kernel ends at the first of these pages; the others are the tables and the user's page.
abbrev pub end : ℕ
end = 0x8050_0000

abbrev pub root : ℕ
root = 0x8050_1000

abbrev pub middle : ℕ
middle = 0x8050_2000

abbrev pub last : ℕ
last = 0x8050_3000

abbrev pub page : ℕ
page = 0x8050_4000

abbrev pub space : Memory
space = record {
  words = λ a.
      if a == root
      then 0x2014_0801
      else if a == middle
      then 0x2014_0c01
      else if a == last
      then 0x2014_101f
      else 0;
  free_list = 0;
  npage = 0;
  total_page = 0;
}

abbrev pub places : Places
places t =
    if t == root
    then 1
    else if t == middle
    then 512
    else if t == last
    then 2 ^ 18
    else if t == page
    then 2 ^ 27
    else 0

pub root-AtLevel : AtLevel 2 (places root)
root-AtLevel = (omega arith, omega arith, refl)

pub space-Owns : Owns end space [] places
space-Owns = record {
  holds = record { chain = refl; pages = tt; once = λ a. omega arith; counted = refl };
  pages = λ t c. record { aligned = ground arith; above = ground arith; below = ground arith };
  in_use = λ t c. refl;
  links = λ t i c low fits valid. ground arith;
  leaves = λ t i high low fits valid user. ground arith;
}

pub usable : Usable space root 0x10 2
unfolding look
usable = record { in_range = omega arith; mapped = λ i b. mapped i b }
  where
    mapped : (i : ℕ) → i < 2 → for_user (entry space root (0x10 + i)) ≡ true
    mapped zero b = refl
    mapped (suc zero) b = refl
    mapped (suc (suc i)) b = absurd (omega arith)
