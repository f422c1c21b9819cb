-- ===== src/Fs/Fat/Entry.antt =====
-- kernel/include/fs/fat/fat.hpp and kernel/fs/fat32/fat32_file_system.cpp: directory entries of 32 bytes.
use startos.Prelude.{
  ℕ, zero, suc, ◌+◌, ◌-◌, ◌*◌, ◌/◌, ◌%◌, ◌^◌, ◌==◌, Bool, List, [], ◌∷◌, ◌++◌, length, get_or, set,
  take, drop, replicate, if◌then◌else◌, ltb, leb, ◌&&◌, Option, none, some,
}
use startos.Fs.FatTime.{unix_time2fat}

-- A short entry, and what the fields of a long one share with it.
pub record ShortEntry : Type 0 where
  pub name : List ℕ
  pub attrib : ℕ
  pub reserved : ℕ
  pub creation_time_seconds : ℕ
  pub creation_time : ℕ
  pub creation_date : ℕ
  pub accessed_date : ℕ
  pub cluster_high : ℕ
  pub modification_time : ℕ
  pub modification_date : ℕ
  pub cluster_low : ℕ
  pub file_size : ℕ

-- A `uint16_t`, low byte first, at an offset of a list of bytes.
abbrev pub u16_bytes : ℕ → List ℕ
u16_bytes v = v % 256 ∷ v / 256 % 256 ∷ []

abbrev pub u16_at : List ℕ → ℕ → ℕ
u16_at bs i = get_or bs i 0 + get_or bs (i + 1) 0 * 256

-- The layout of a short entry in memory and on the device, behind its name.
abbrev pub after_name : ShortEntry → List ℕ
after_name e =
    e.attrib ∷ e.reserved ∷ e.creation_time_seconds ∷ u16_bytes e.creation_time
    ++ u16_bytes e.creation_date
    ++ u16_bytes e.accessed_date
    ++ u16_bytes e.cluster_high
    ++ u16_bytes e.modification_time
    ++ u16_bytes e.modification_date
    ++ u16_bytes e.cluster_low
    ++ u16_bytes (e.file_size % 2 ^ 16)
    ++ u16_bytes (e.file_size / 2 ^ 16)

unfoldable pub entry_bytes : ShortEntry → List ℕ
entry_bytes e = e.name ++ after_name e

abbrev fields_of : List ℕ → List ℕ → ShortEntry
fields_of name rest = record {
  name = name;
  attrib = get_or rest 0 0;
  reserved = get_or rest 1 0;
  creation_time_seconds = get_or rest 2 0;
  creation_time = u16_at rest 3;
  creation_date = u16_at rest 5;
  accessed_date = u16_at rest 7;
  cluster_high = u16_at rest 9;
  modification_time = u16_at rest 11;
  modification_date = u16_at rest 13;
  cluster_low = u16_at rest 15;
  file_size = u16_at rest 17 + u16_at rest 19 * 2 ^ 16;
}

unfoldable pub entry_of : List ℕ → ShortEntry
entry_of bs = fields_of (take 11 bs) (drop 11 bs)

unfoldable pub get_start_cluster : ShortEntry → ℕ
get_start_cluster e = e.cluster_high * 2 ^ 16 + e.cluster_low

abbrev pub free_mark : ℕ
free_mark = 0

abbrev pub deleted_mark : ℕ
deleted_mark = 0xe5

unfoldable pub is_free : ShortEntry → Bool
is_free e = get_or e.name 0 0 == free_mark

unfoldable pub is_deleted : ShortEntry → Bool
is_deleted e = get_or e.name 0 0 == deleted_mark

unfoldable pub mkattr : Bool → ℕ
mkattr is_dir = if is_dir then 0x10 else 0

unfoldable pub to_up_case : ℕ → ℕ
to_up_case c = if leb 97 c && leb c 122 then c - 32 else c

-- Where the last `c` of a string stands.
unfoldable pub strrchr : List ℕ → ℕ → Option ℕ
strrchr [] c = none
strrchr (x ∷ xs) c = elim (strrchr xs c) [
  | some i ↦ some (suc i)
  | none ↦ if x == c then some 0 else none
]

-- `toUpCase` for the first `n` bytes.
abbrev pub up_first : ℕ → List ℕ → List ℕ
up_first zero xs = xs
up_first (suc n) [] = []
up_first (suc n) (x ∷ xs) = to_up_case x ∷ up_first n xs

-- Bytes put at an offset of a buffer.
abbrev pub put_bytes : List ℕ → ℕ → List ℕ → List ℕ
put_bytes bs i [] = bs
put_bytes bs i (x ∷ xs) = put_bytes (set bs i x) (i + 1) xs

-- The name that `FillShortFile` gives to an entry: the part before the last dot, cut with `~1` when it
-- is longer than 8 bytes, then three bytes of the part behind it.
unfoldable pub short_name : List ℕ → List ℕ
short_name name =
    let blank = replicate 11 0x20 in
    let (entry_name, len) : List ℕ × ℕ = elim (strrchr name 46) [
      | some dot ↦ (put_bytes blank 8 (take 3 (drop (dot + 1) name)), dot)
      | none ↦ (blank, length name)
    ] in
    let cut = set (set (put_bytes entry_name 0 (take 6 name)) 6 126) 7 49 in
    up_first len (if ltb 8 len then cut else put_bytes entry_name 0 (take len name))

-- What the code reads besides its arguments: the clock, and the two bytes of a new entry that it does
-- not set.
pub record Ambient : Type 0 where
  pub now : ℕ
  pub reserved : ℕ
  pub creation_time_seconds : ℕ

-- `FillShortFile`, for a name that has at most 32 bytes before its last dot: it changes letters behind
-- the entry if there are more.
unfoldable pub fill_short_file : Ambient → List ℕ → ℕ → Bool → ShortEntry
fill_short_file amb name cluster is_dir =
    let (date, time) = unix_time2fat amb.now in
    record {
      name = short_name name;
      attrib = mkattr is_dir;
      reserved = amb.reserved;
      creation_time_seconds = amb.creation_time_seconds;
      creation_time = time;
      creation_date = date;
      accessed_date = date;
      cluster_high = cluster / 2 ^ 16 % 2 ^ 16;
      modification_time = time;
      modification_date = date;
      cluster_low = cluster % 2 ^ 16;
      file_size = 0;
    }
