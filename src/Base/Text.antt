-- ===== src/Base/Text.antt =====
-- Go strings and byte slices as lists of bytes: equality, prefixes, searching, splitting.
use Prim.Native.Nat.{ℕ}
use Prim.Native.Char.{code}
use Prim.Native.String.{String}
use mathlib.Core.Path.{◌≡◌, refl}
use mathlib.Core.Logic.{◌↔◌, ◌≢◌}
use mathlib.Core.Bool.{Bool, true, false, ◌&&◌}
use mathlib.Core.List.{List, [], ◌∷◌, ◌++◌}
use mathlib.Core.Option.{Option, none, some}
use native.Mathlib.Omega.{arith}
use xrootd_monitoring_shovel.Base.Tests.{◌==◌, if◌then◌else◌}

abbrev pub Bytes : Type 0
Bytes = List ℕ

-- The bytes of a literal; every literal here is ASCII.
abbrev pub bytes : String → Bytes
bytes String.[] = []
bytes (String.◌∷◌ c s) = code c ∷ bytes s

unfoldable pub eqb : Bytes → Bytes → Bool
eqb [] [] = true
eqb (x ∷ xs) (y ∷ ys) = x == y && eqb xs ys
eqb _ _ = false

pub eqb_iff : (a b : Bytes) → (eqb a b ≡ true) ↔ (a ≡ b)
unfolding eqb
eqb_iff (x ∷ a) (y ∷ b) = ground (arith, eqb_iff a b)
eqb_iff _ _ = ground arith

pub eqb_refl : (a : Bytes) → eqb a a ≡ true
eqb_refl a = (eqb_iff a a).1 refl

abbrev pub is_empty : Bytes → Bool
is_empty [] = true
is_empty (_ ∷ _) = false

-- strings.HasPrefix(s, p)
unfoldable pub has_prefix : Bytes → Bytes → Bool
has_prefix s [] = true
has_prefix [] (y ∷ p) = false
has_prefix (x ∷ s) (y ∷ p) = x == y && has_prefix s p

pub has_prefix-append : (p s : Bytes) → has_prefix (p ++ s) p ≡ true
unfolding has_prefix
has_prefix-append [] s = refl
has_prefix-append (x ∷ p) s = ground (arith, has_prefix-append p s)

-- The text before the first separator and the text behind it, where there is one.
unfoldable pub cut : ℕ → Bytes → Option (Bytes × Bytes)
cut c [] = none
cut c (x ∷ xs) =
    if x == c
    then some ([], xs)
    else elim (cut c xs) [ none ↦ none | some (a, b) ↦ some (x ∷ a, b) ]

-- The same at the last separator.
unfoldable pub cut_last : ℕ → Bytes → Option (Bytes × Bytes)
cut_last c [] = none
cut_last c (x ∷ xs) = elim (cut_last c xs) [
  | some (a, b) ↦ some (x ∷ a, b)
  | none ↦ if x == c then some ([], xs) else none
]

-- `c` does not occur in the text.
abbrev pub Lacks : ℕ → Bytes → Type 0
Lacks c [] = Unit
Lacks c (x ∷ xs) = (x ≢ c) × Lacks c xs

pub cut-append : (c : ℕ) (a b : Bytes) → Lacks c a → cut c (a ++ (c ∷ b)) ≡ some (a, b)
unfolding cut
cut-append c [] b h = ground arith
cut-append c (x ∷ a) b h = ground (arith, cut-append c a b h.1)

pub cut-Lacks : (c : ℕ) (a : Bytes) → Lacks c a → cut c a ≡ none
unfolding cut
cut-Lacks c [] h = refl
cut-Lacks c (x ∷ a) h = ground (arith, cut-Lacks c a h.1)

pub cut_last-Lacks : (c : ℕ) (a : Bytes) → Lacks c a → cut_last c a ≡ none
unfolding cut_last
cut_last-Lacks c [] h = refl
cut_last-Lacks c (x ∷ a) h = ground (arith, cut_last-Lacks c a h.1)

pub cut_last-append : (c : ℕ) (a b : Bytes) → Lacks c b → cut_last c (a ++ (c ∷ b)) ≡ some (a, b)
unfolding cut_last
cut_last-append c [] b h = ground (arith, cut_last-Lacks c b h)
cut_last-append c (x ∷ a) b h = ground (arith, cut_last-append c a b h)

pub Lacks-append : (c : ℕ) (a b : Bytes) → Lacks c a → Lacks c b → Lacks c (a ++ b)
Lacks-append c [] b h k = k
Lacks-append c (x ∷ a) b h k = (h.0, Lacks-append c a b h.1 k)
