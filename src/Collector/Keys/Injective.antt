-- ===== src/Collector/Keys/Injective.antt =====
-- No two entries of the state maps share a key by accident.
use mathlib.Core.List.{append_cancel_right}
use xrootd_monitoring_shovel.Base.{
  ℕ, suc, ◌≤◌, ◌≡◌, ◌≢◌, refl, sym, ap, ◌∙◌, [], ◌∷◌, ◌++◌, append_assoc, Option, none, some, false,
  Bytes, bytes, decimal, decimal_negsuc, decimal-AreDigits, decimal_injective, is_digit, AreDigits,
  ℤ, pos, negsuc, arith, if◌then◌else◌,
}
use xrootd_monitoring_shovel.Collector.Keys.{
  build_dict_key, build_dict_id_key, build_file_key, build_time_key,
}

-- The text before the last byte that is no digit, that byte, and the digits behind it.
split_number : Bytes → Option (Bytes × ℕ × Bytes)
split_number [] = none
split_number (x ∷ xs) = elim (split_number xs) [
  | some (a, c, b) ↦ some (x ∷ a, c, b)
  | none ↦ if is_digit x then none else some ([], x, xs)
]

split_number-AreDigits : (b : Bytes) → AreDigits b → split_number b ≡ none
unfolding split_number
split_number-AreDigits [] h = refl
split_number-AreDigits (x ∷ b) h = ground (arith, split_number-AreDigits b h.2)

split_number-append :
    (a : Bytes) (c : ℕ) (b : Bytes)
    → is_digit c ≡ false
    → AreDigits b
    → split_number (a ++ (c ∷ b)) ≡ some (a, c, b)
unfolding split_number
split_number-append [] c b n d = ground (arith, split_number-AreDigits b d)
split_number-append (x ∷ a) c b n d = ground (arith, split_number-append a c b n d)

last : Bytes → ℕ
last [] = 0
last (x ∷ []) = x
last (x ∷ y ∷ xs) = last (y ∷ xs)

last-append : (a : Bytes) (x : ℕ) (b : Bytes) → last (a ++ (x ∷ b)) ≡ last (x ∷ b)
unfolding last
last-append [] x b = refl
last-append (y ∷ []) x b = refl
last-append (y ∷ z ∷ a) x b = last-append (z ∷ a) x b

-- The three kinds of keys that end in one number.
pub data KeyKind : Type 0 where
  dict dict_id file : KeyKind

abbrev pub build_key : KeyKind → Bytes → ℕ → Bytes
build_key dict = build_dict_key
build_key dict_id = build_dict_id_key
build_key file = build_file_key

abbrev infix_of : KeyKind → Bytes
infix_of dict = bytes "-dict"
infix_of dict_id = bytes "-dictid"
infix_of file = bytes "-file"

build_key-parts :
    (k : KeyKind) (s : Bytes) (n : ℕ) → build_key k s n ≡ (s ++ infix_of k) ++ (b'-' ∷ decimal n)
unfolding build_dict_key build_dict_id_key build_file_key
build_key-parts dict s n = simp append_assoc
build_key-parts dict_id s n = simp append_assoc
build_key-parts file s n = simp append_assoc

last_of : KeyKind → ℕ
last_of dict = b't'
last_of dict_id = b'd'
last_of file = b'e'

last-infix_of : (k : KeyKind) (s : Bytes) → last (s ++ infix_of k) ≡ last_of k
unfolding last_of last
last-infix_of dict s = last-append s _ _
last-infix_of dict_id s = last-append s _ _
last-infix_of file s = last-append s _ _

last_of-injective : (k k' : KeyKind) → last_of k ≡ last_of k' → k ≡ k'
unfolding last_of
last_of-injective dict k' e = ground arith
last_of-injective dict_id k' e = ground arith
last_of-injective file k' e = ground arith

split_number-build_key :
    (k : KeyKind) (s : Bytes) (n : ℕ)
    → split_number (build_key k s n) ≡ some (s ++ infix_of k, b'-', decimal n)
split_number-build_key k s n =
    rw (build_key-parts k s n)
      (split_number-append (s ++ infix_of k) b'-' (decimal n) refl (decimal-AreDigits n))

-- A dictionary key, a dictionary-id key or a file key determines its kind, its server and its
-- number, whatever the server's name is: two such keys are equal only if all three are.
pub build_key_injective :
    (k k' : KeyKind) (s s' : Bytes) (n n' : ℕ)
    → build_key k s n ≡ build_key k' s' n'
    → (k ≡ k') × (s ≡ s') × (n ≡ n')
build_key_injective k k' s s' n n' e =
    let same : some (s ++ infix_of k, b'-', decimal n)
        ≡ some (s' ++ infix_of k', b'-', decimal n') =
      sym (split_number-build_key k s n) ∙ ap split_number e ∙ split_number-build_key k' s' n' in
    let heads : s ++ infix_of k ≡ s' ++ infix_of k' = cc same in
    let kinds : k ≡ k' =
      last_of-injective k k' (sym (last-infix_of k s) ∙ ap last heads ∙ last-infix_of k' s') in
    (
      kinds,
      append_cancel_right s s' (infix_of k)
          (heads ∙ ap (λ (x : KeyKind). s' ++ infix_of x) (sym kinds)),
      decimal_injective n n' (cc same),
    )

last-le_nine : (c : ℕ) (ds : Bytes) → c ≤ b'9' → AreDigits ds → last (c ∷ ds) ≤ b'9'
unfolding last
last-le_nine c [] h d = h
last-le_nine c (x ∷ ds) h d = last-le_nine x ds d.1 d.2

-- A time key has another byte than the 'e' of "-file" before its last number.
abbrev TimeSplit : Bytes → Type 0
TimeSplit key = (a : Bytes) × (d : Bytes) × (split_number key ≡ some (a, b'-', d)) × (last a ≤ b'9')

build_time_key-TimeSplit : (s : Bytes) (f : ℕ) (sid : ℤ) → TimeSplit (build_time_key s f sid)
unfolding build_time_key decimal_negsuc
build_time_key-TimeSplit s f (pos n) =
    let a = (s ++ bytes "-time") ++ (b'-' ∷ decimal f) in
    let regroup : build_time_key s f (pos n) ≡ a ++ (b'-' ∷ decimal n) = simp append_assoc in
    (
      a,
      decimal n,
      ap split_number regroup ∙ split_number-append a b'-' (decimal n) refl (decimal-AreDigits n),
      rw (last-append (s ++ bytes "-time") b'-' (decimal f))
          (last-le_nine b'-' (decimal f) (omega arith) (decimal-AreDigits f)),
    )
build_time_key-TimeSplit s f (negsuc n) =
    let a = ((s ++ bytes "-time-") ++ decimal f) ++ (b'-' ∷ []) in
    let regroup : build_time_key s f (negsuc n) ≡ a ++ (b'-' ∷ decimal (suc n)) =
      simp append_assoc in
    (
      a,
      decimal (suc n),
      ap split_number regroup
          ∙ split_number-append a b'-' (decimal (suc n)) refl (decimal-AreDigits (suc n)),
      rw (last-append ((s ++ bytes "-time-") ++ decimal f) b'-' []) (unfold last in omega arith),
    )

-- The state map holds open files and time records under different keys: no file key is a time key,
-- for any servers, files and session ids, negative ones included.
pub build_file_key-ne-build_time_key :
    (s s' : Bytes) (n f : ℕ) (sid : ℤ) → build_file_key s n ≢ build_time_key s' f sid
unfolding last_of
build_file_key-ne-build_time_key s s' n f sid e =
    let (a, d, splits, small) = build_time_key-TimeSplit s' f sid in
    let same : some (s ++ infix_of file, b'-', decimal n) ≡ some (a, b'-', d) =
      sym (split_number-build_key file s n) ∙ ap split_number e ∙ splits in
    let heads : s ++ infix_of file ≡ a = cc same in
    let ends : last a ≡ b'e' = ap last (sym heads) ∙ last-infix_of file s in absurd (omega arith)
