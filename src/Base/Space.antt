-- ===== src/Base/Space.antt =====
-- strings.TrimSpace over UTF-8, and strings.Split at one byte.
use Prim.Native.Nat.{ℕ, zero, suc}
use mathlib.Core.Bool.{Bool, true, false, ◌&&◌, ◌||◌}
use mathlib.Core.List.{List, [], ◌∷◌, ◌++◌, reverse}
use xrootd_monitoring_shovel.Base.Tests.{leb, ◌==◌, if◌then◌else◌}
use xrootd_monitoring_shovel.Base.Lists.{length, drop}
use xrootd_monitoring_shovel.Base.Text.{Bytes, is_empty}

-- The white space of one, two and three bytes.
abbrev is_space1 : ℕ → Bool
is_space1 a = leb 9 a && leb a 13 || a == b' '

abbrev is_space2 : ℕ → ℕ → Bool
is_space2 a b = a == 0xc2 && (b == 0x85 || b == 0xa0)

abbrev is_space3 : ℕ → ℕ → ℕ → Bool
is_space3 a b c =
    a == 0xe1 && b == 0x9a && c == 0x80
    || a == 0xe2 && b == 0x80 && (leb 0x80 c && leb c 0x8a || c == 0xa8 || c == 0xa9 || c == 0xaf)
    || a == 0xe2 && b == 0x81 && c == 0x9f
    || a == 0xe3 && b == 0x80 && c == 0x80

-- How many bytes the white space in front takes, 0 if there is none.
unfoldable pub space_width : Bytes → ℕ
space_width (a ∷ b ∷ c ∷ _) =
    if is_space1 a then 1 else if is_space2 a b then 2 else if is_space3 a b c then 3 else 0
space_width (a ∷ b ∷ []) = if is_space1 a then 1 else if is_space2 a b then 2 else 0
space_width (a ∷ []) = if is_space1 a then 1 else 0
space_width [] = 0

-- The same for a text that is reversed.
unfoldable pub space_width_back : Bytes → ℕ
space_width_back (c ∷ b ∷ a ∷ _) =
    if is_space1 c then 1 else if is_space2 b c then 2 else if is_space3 a b c then 3 else 0
space_width_back (b ∷ a ∷ []) = if is_space1 b then 1 else if is_space2 a b then 2 else 0
space_width_back (a ∷ []) = if is_space1 a then 1 else 0
space_width_back [] = 0

-- One round for each byte is enough.
unfoldable pub trim_by : (Bytes → ℕ) → ℕ → Bytes → Bytes
trim_by width zero b = b
trim_by width (suc fuel) b = elim (width b) [
  | zero ↦ b
  | suc n ↦ trim_by width fuel (drop (suc n) b)
]

unfoldable pub trim_space : Bytes → Bytes
unfolding trim_by space_width space_width_back
trim_space b =
    let left = trim_by space_width (length b) b in
    reverse (trim_by space_width_back (length left) (reverse left))

-- strings.Split(s, sep): the last part stands also if it is empty.
unfoldable pub split_all : ℕ → Bytes → Bytes → List Bytes
split_all sep part [] = part ∷ []
split_all sep part (c ∷ cs) = elim (c == sep) [
  | true ↦ part ∷ split_all sep [] cs
  | false ↦ split_all sep (part ++ c ∷ []) cs
]

unfoldable pub split : Bytes → ℕ → List Bytes
unfolding split_all
split s sep = split_all sep [] s

-- strings.Join(parts, sep) for a separator of one byte
unfoldable pub join : ℕ → List Bytes → Bytes
join sep [] = []
join sep (p ∷ []) = p
join sep (p ∷ q ∷ ps) = p ++ (sep ∷ join sep (q ∷ ps))

-- The last two parts.
unfoldable pub last_two : List Bytes → List Bytes
last_two [] = []
last_two (p ∷ []) = p ∷ []
last_two (p ∷ q ∷ []) = p ∷ q ∷ []
last_two (p ∷ q ∷ r ∷ ps) = last_two (q ∷ r ∷ ps)

-- strings.Fields: the runs of bytes between white space. `part` is the run that is being read; one
-- round for each byte is enough.
unfoldable pub fields_onto : ℕ → Bytes → Bytes → List Bytes
fields_onto zero part s = if is_empty part then [] else part ∷ []
fields_onto (suc fuel) part [] = if is_empty part then [] else part ∷ []
fields_onto (suc fuel) part (c ∷ cs) = elim (space_width (c ∷ cs)) [
  | zero ↦ fields_onto fuel (part ++ c ∷ []) cs
  | suc n ↦
      let rest = fields_onto fuel [] (drop n cs) in if is_empty part then rest else part ∷ rest
]

unfoldable pub fields : Bytes → List Bytes
unfolding fields_onto space_width
fields s = fields_onto (length s) [] s
