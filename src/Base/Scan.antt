-- ===== src/Base/Scan.antt =====
-- fmt.Sscanf with "%d" and strconv.Atoi, on texts of bytes. Sscanf passes over leading spaces but
-- no newline, takes the longest run of digits and leaves what follows; Atoi wants nothing else.
-- Of the spaces that Sscanf knows, those of one byte are modelled.
use Prim.Native.Nat.{ℕ, ◌+◌, ◌-◌, ◌<◌, min}
use mathlib.Core.Path.{◌≡◌, refl}
use mathlib.Core.Logic.{◌≢◌}
use mathlib.Core.Bool.{Bool, true, ◌&&◌, ◌||◌}
use mathlib.Core.Option.{Option, none, some}
use mathlib.Core.List.{[], ◌∷◌}
use native.Mathlib.Omega.{arith}
use xrootd_monitoring_shovel.Base.Tests.{ltb, lt→ltb, ◌==◌, if◌then◌else◌}
use xrootd_monitoring_shovel.Base.Int.{ℤ, pos, negsuc}
use xrootd_monitoring_shovel.Base.Text.{Bytes}
use xrootd_monitoring_shovel.Base.Decimal.{is_digit, value, AreDigits}

-- The longest run of digits in front.
unfoldable pub digits_of : Bytes → Bytes
digits_of [] = []
digits_of (c ∷ cs) = if is_digit c then c ∷ digits_of cs else []

abbrev pub is_inline_space : ℕ → Bool
is_inline_space c = c == b' ' || c == b'\t' || c == 11 || c == 12 || c == b'\r'

unfoldable pub skip_spaces : Bytes → Bytes
skip_spaces [] = []
skip_spaces (c ∷ cs) = if is_inline_space c then skip_spaces cs else c ∷ cs

-- A run of digits as a number below `limit`; no digit is an error.
unfoldable pub number_below : ℕ → Bytes → Option ℕ
number_below limit [] = none
number_below limit (d ∷ ds) = if ltb (value (d ∷ ds)) limit then some (value (d ∷ ds)) else none

-- -n
abbrev negative : ℕ → ℤ
negative n = if n == 0 then pos 0 else negsuc (n - 1)

abbrev pub negated : Option ℕ → Option ℤ
negated none = none
negated (some n) = some (negative n)

abbrev pub positive : Option ℕ → Option ℤ
positive none = none
positive (some n) = some (pos n)

abbrev pub int64_limit : ℕ
int64_limit = 0x8000000000000000

unfoldable pub signed_by : (Bytes → Bytes) → Bytes → Option ℤ
signed_by run [] = none
signed_by run (c ∷ cs) =
    if c == b'-'
    then negated (number_below (int64_limit + 1) (run cs))
    else if c == b'+'
    then positive (number_below int64_limit (run cs))
    else positive (number_below int64_limit (run (c ∷ cs)))

-- fmt.Sscanf(s, "%d", &n) into an int
unfoldable pub scan_int : Bytes → Option ℤ
scan_int s = signed_by digits_of (skip_spaces s)

-- fmt.Sscanf(s, "%d", &n) into a uint32
unfoldable pub scan_uint32 : Bytes → Option ℕ
scan_uint32 s = number_below 0x100000000 (digits_of (skip_spaces s))

unfoldable pub all_digits : Bytes → Bool
all_digits [] = true
all_digits (c ∷ cs) = is_digit c && all_digits cs

-- The text itself if it has digits only; otherwise nothing, which is an error.
unfoldable pub only_digits : Bytes → Bytes
unfolding all_digits
only_digits s = if all_digits s then s else []

-- strconv.Atoi, if it makes no error
unfoldable pub atoi : Bytes → Option ℤ
atoi s = signed_by only_digits s

-- The number that strconv.Atoi returns beside its error: 0 for a text that is no number, the
-- nearest int for a number out of range.
unfoldable pub atoi_value : Bytes → ℤ
atoi_value [] = pos 0
atoi_value (c ∷ cs) =
    if c == b'-'
    then negative (min (value (only_digits cs)) int64_limit)
    else if c == b'+'
    then pos (min (value (only_digits cs)) (int64_limit - 1))
    else pos (min (value (only_digits (c ∷ cs))) (int64_limit - 1))

digits_of-AreDigits : (ds : Bytes) → AreDigits ds → digits_of ds ≡ ds
unfolding digits_of
digits_of-AreDigits [] h = refl
digits_of-AreDigits (c ∷ cs) h = ground (arith, digits_of-AreDigits cs h.2)

all_digits-AreDigits : (ds : Bytes) → AreDigits ds → all_digits ds ≡ true
unfolding all_digits
all_digits-AreDigits [] h = refl
all_digits-AreDigits (c ∷ cs) h = ground (arith, all_digits-AreDigits cs h.2)

signed_by-AreDigits :
    (run : Bytes → Bytes) (ds : Bytes)
    → run ds ≡ ds
    → AreDigits ds
    → ds ≢ []
    → value ds < int64_limit
    → signed_by run ds ≡ some (pos (value ds))
unfolding signed_by number_below
signed_by-AreDigits run [] e h n v = absurd (n refl)
signed_by-AreDigits run (c ∷ cs) e h n v = ground (arith, lt→ltb (value (c ∷ cs)) int64_limit v)

skip_spaces-AreDigits : (ds : Bytes) → AreDigits ds → skip_spaces ds ≡ ds
unfolding skip_spaces
skip_spaces-AreDigits [] h = refl
skip_spaces-AreDigits (c ∷ cs) h = ground arith

-- On a text of digits that an int holds both readers give its value.
module _ (ds : Bytes) (h : AreDigits ds) (n : ds ≢ []) (v : value ds < int64_limit) where
  pub scan_int-AreDigits : scan_int ds ≡ some (pos (value ds))
  unfolding scan_int
  scan_int-AreDigits =
      rw (skip_spaces-AreDigits ds h)
        (signed_by-AreDigits digits_of ds (digits_of-AreDigits ds h) h n v)

pub atoi_value-AreDigits :
    (ds : Bytes) → AreDigits ds → ds ≢ [] → value ds < int64_limit → atoi_value ds ≡ pos (value ds)
unfolding atoi_value only_digits
atoi_value-AreDigits [] h n v = absurd (n refl)
atoi_value-AreDigits (c ∷ cs) h n v = ground (arith, all_digits-AreDigits (c ∷ cs) h)

pub scan_uint32-AreDigits :
    (ds : Bytes)
    → AreDigits ds
    → ds ≢ []
    → value ds < 0x100000000
    → scan_uint32 ds ≡ some (value ds)
unfolding scan_uint32 number_below
scan_uint32-AreDigits [] h n v = absurd (n refl)
scan_uint32-AreDigits (c ∷ cs) h n v = ground (
  arith,
  skip_spaces-AreDigits (c ∷ cs) h,
  digits_of-AreDigits (c ∷ cs) h,
  lt→ltb (value (c ∷ cs)) 0x100000000 v,
)
