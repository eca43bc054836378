-- ===== src/Parser/Wire.antt =====
-- encoding/binary in big-endian order, over the bytes that a reader has not read yet. `none` is
-- io.EOF or io.ErrUnexpectedEOF. The `be` functions write what the readers read.
use xrootd_monitoring_shovel.Base.{
  ℕ, ◌+◌, ◌-◌, ◌*◌, ◌/◌, ◌%◌, ◌<◌, ◌≡◌, refl, [], ◌∷◌, ◌++◌, Option, none, some, append_assoc,
  arith, Bytes, ℤ, pos, negsuc, to_int16, to_int32, to_int64,
}

infixl 5 ◌>>=◌
abbrev pub ◌>>=◌ {ℓ κ} : {A : Type ℓ} {B : Type κ} → Option A → (A → Option B) → Option B
none >>= f = none
some a >>= f = f a

pub >>=-some {ℓ κ} :
    {A : Type ℓ} {B : Type κ} (o : Option A) (f : A → Option B) (y : B)
    → (o >>= f) ≡ some y
    → (x : A) × (o ≡ some x) × (f x ≡ some y)
>>=-some none f y e = absurd (ground arith)
>>=-some (some x) f y e = (x, refl, e)

pub some-injective {ℓ} : {A : Type ℓ} {a b : A} → some a ≡ some b → a ≡ b
some-injective e = cc

unfoldable pub u8 : Bytes → Option (ℕ × Bytes)
u8 (a ∷ r) = some (a, r)
u8 _ = none

unfoldable pub u16 : Bytes → Option (ℕ × Bytes)
u16 (a ∷ b ∷ r) = some (a * 256 + b, r)
u16 _ = none

unfoldable pub u32 : Bytes → Option (ℕ × Bytes)
u32 (a ∷ b ∷ c ∷ d ∷ r) = some (((a * 256 + b) * 256 + c) * 256 + d, r)
u32 _ = none

unfoldable pub u64 : Bytes → Option (ℕ × Bytes)
u64 b = do (hi, r) ← u32 b; (lo, r') ← u32 r; some (hi * 0x100000000 + lo, r')

unfoldable pub be16 : ℕ → Bytes
be16 n = n / 256 ∷ n % 256 ∷ []

unfoldable pub be32 : ℕ → Bytes
be32 n = n / 0x1000000 ∷ n / 0x10000 % 256 ∷ n / 256 % 256 ∷ n % 256 ∷ []

unfoldable pub be64 : ℕ → Bytes
be64 n = be32 (n / 0x100000000) ++ be32 (n % 0x100000000)

pub u16-be16 : (n : ℕ) (r : Bytes) → u16 (be16 n ++ r) ≡ some (n, r)
unfolding u16 be16
u16-be16 n r = ground arith

pub u32-be32 : (n : ℕ) (r : Bytes) → u32 (be32 n ++ r) ≡ some (n, r)
unfolding u32 be32
u32-be32 n r = ground arith

pub u64-be64 : (n : ℕ) (r : Bytes) → u64 (be64 n ++ r) ≡ some (n, r)
unfolding u64 be64
u64-be64 n r = rw (append_assoc, u32-be32, u32-be32) (ground arith)

-- The words whose signed reading is the given integer.
abbrev pub of_int16 : ℤ → ℕ
of_int16 (pos n) = n
of_int16 (negsuc n) = 0xffff - n

abbrev pub of_int32 : ℤ → ℕ
of_int32 (pos n) = n
of_int32 (negsuc n) = 0xffffffff - n

abbrev pub of_int64 : ℤ → ℕ
of_int64 (pos n) = n
of_int64 (negsuc n) = 0xffffffffffffffff - n

abbrev pub Within : ℕ → ℤ → Type 0
Within k (pos n) = n < k
Within k (negsuc n) = n < k

abbrev pub InInt16 : ℤ → Type 0
InInt16 = Within 0x8000

abbrev pub InInt32 : ℤ → Type 0
InInt32 = Within 0x80000000

abbrev pub InInt64 : ℤ → Type 0
InInt64 = Within 0x8000000000000000

pub to_int16-of_int16 : (z : ℤ) → InInt16 z → to_int16 (of_int16 z) ≡ z
to_int16-of_int16 (pos n) h = ground arith
to_int16-of_int16 (negsuc n) h = ground arith

pub to_int32-of_int32 : (z : ℤ) → InInt32 z → to_int32 (of_int32 z) ≡ z
to_int32-of_int32 (pos n) h = ground arith
to_int32-of_int32 (negsuc n) h = ground arith

pub to_int64-of_int64 : (z : ℤ) → InInt64 z → to_int64 (of_int64 z) ≡ z
to_int64-of_int64 (pos n) h = ground arith
to_int64-of_int64 (negsuc n) h = ground arith
