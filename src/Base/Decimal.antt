-- ===== src/Base/Decimal.antt =====
-- strconv.AppendUint in base 10, and the value that a decimal text denotes.
use Prim.Native.Nat.{ℕ, zero, suc, ◌+◌, ◌-◌, ◌*◌, ◌/◌, ◌%◌, ◌<◌, ◌≤◌}
use mathlib.Core.Path.{◌≡◌, refl, sym, ap, ◌∙◌}
use mathlib.Core.Logic.{◌⊎◌}
use mathlib.Core.Bool.{Bool, ◌&&◌}
use mathlib.Core.List.{[], ◌∷◌, ◌++◌}
use native.Mathlib.Omega.{arith}
use xrootd_monitoring_shovel.Base.Tests.{ltb, leb, if◌then◌else◌}
use xrootd_monitoring_shovel.Base.Text.{Bytes, Lacks}

abbrev pub is_digit : ℕ → Bool
is_digit c = leb b'0' c && leb c b'9'

decimal_onto : ℕ → ℕ → Bytes
decimal_onto zero n = []
decimal_onto (suc f) n =
    let more = decimal_onto f (n / 10) ++ (b'0' + n % 10) ∷ [] in
    if ltb n 10 then (b'0' + n) ∷ [] else more

-- The digits of n; n + 1 rounds are enough, since each divides by ten.
unfoldable pub decimal : ℕ → Bytes
unfolding decimal_onto
decimal n = decimal_onto (suc n) n

abbrev pub value_from : ℕ → Bytes → ℕ
value_from acc [] = acc
value_from acc (c ∷ cs) = value_from (acc * 10 + (c - b'0')) cs

abbrev pub value : Bytes → ℕ
value = value_from 0

value_from-append :
    (acc : ℕ) (xs : Bytes) (d : ℕ)
    → value_from acc (xs ++ d ∷ []) ≡ value_from acc xs * 10 + (d - b'0')
value_from-append acc [] d = refl
value_from-append acc (x ∷ xs) d = value_from-append (acc * 10 + (x - b'0')) xs d

value-decimal_onto : (f n : ℕ) → n < f → value (decimal_onto f n) ≡ n
unfolding decimal_onto
value-decimal_onto zero n h = absurd (omega arith)
value-decimal_onto (suc f) n h = ground (
  arith,
  value-decimal_onto f (n / 10),
  value_from-append 0 (decimal_onto f (n / 10)) (b'0' + n % 10),
)

pub value-decimal : (n : ℕ) → value (decimal n) ≡ n
unfolding decimal
value-decimal n = value-decimal_onto (suc n) n (omega arith)

pub decimal_injective : (a b : ℕ) → decimal a ≡ decimal b → a ≡ b
decimal_injective a b e = sym (value-decimal a) ∙ ap value e ∙ value-decimal b

abbrev pub AreDigits : Bytes → Type 0
AreDigits [] = Unit
AreDigits (x ∷ xs) = (b'0' ≤ x) × (x ≤ b'9') × AreDigits xs

AreDigits-append : (a b : Bytes) → AreDigits a → AreDigits b → AreDigits (a ++ b)
AreDigits-append [] b h k = k
AreDigits-append (x ∷ a) b h k = (h.0, h.1, AreDigits-append a b h.2 k)

decimal_onto-AreDigits : (f n : ℕ) → AreDigits (decimal_onto f n)
unfolding decimal_onto
decimal_onto-AreDigits zero n = tt
decimal_onto-AreDigits (suc f) n = ground (
  arith,
  AreDigits-append (decimal_onto f (n / 10)) ((b'0' + n % 10) ∷ [])
      (decimal_onto-AreDigits f (n / 10)) (omega arith),
)

pub decimal-AreDigits : (n : ℕ) → AreDigits (decimal n)
unfolding decimal
decimal-AreDigits n = decimal_onto-AreDigits (suc n) n

-- A separator that is no digit does not occur among digits.
pub AreDigits-Lacks : (c : ℕ) (xs : Bytes) → (c < b'0') ⊎ (b'9' < c) → AreDigits xs → Lacks c xs
AreDigits-Lacks c [] h d = tt
AreDigits-Lacks c (x ∷ xs) h d = (omega arith, AreDigits-Lacks c xs h d.2)

-- strconv.AppendInt in base 10, for an integer given by its parts: 0 ≤ n, or -(n + 1).
unfoldable pub decimal_negsuc : ℕ → Bytes
decimal_negsuc n = b'-' ∷ decimal (suc n)

abbrev hex_digit : ℕ → ℕ
hex_digit d = if ltb d 10 then b'0' + d else b'a' + (d - 10)

hexadecimal_onto : ℕ → ℕ → Bytes
hexadecimal_onto zero n = []
hexadecimal_onto (suc f) n =
    let more = hexadecimal_onto f (n / 16) ++ hex_digit (n % 16) ∷ [] in
    if ltb n 16 then hex_digit n ∷ [] else more

-- strconv.AppendUint in base 16.
unfoldable pub hexadecimal : ℕ → Bytes
unfolding hexadecimal_onto
hexadecimal n = hexadecimal_onto (suc n) n
