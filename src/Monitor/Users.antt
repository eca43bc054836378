-- ===== src/Monitor/Users.antt =====
-- `GetSIDRest` of metrics/xrootd_metrics.go, and the reading of a user's authorization text in its
-- HandlePacket.
use xrootd_monitoring_shovel.Base.{
  ℕ, ◌-◌, ◌+◌, ◌/◌, ◌%◌, List, [], ◌∷◌, Option, none, some, Bytes, bytes, eqb, cut, cut_last, split,
  ltb, ℤ, pos, negsuc, atoi, if◌then◌else◌,
}
use xrootd_monitoring_shovel.Monitor.State.{UserRecord}

-- string(b) of a byte b: the UTF-8 text of the rune of that number.
unfoldable pub text_of_byte : ℕ → Bytes
text_of_byte b = if ltb b 0x80 then b ∷ [] else (0xc0 + b / 64) ∷ (0x80 + b % 64) ∷ []

-- uint32(x) of an int
abbrev to_uint32 : ℤ → ℕ
to_uint32 (pos n) = n % 0x100000000
to_uint32 (negsuc n) = 0xffffffff - n % 0x100000000

-- The text before the first separator, or all of it.
abbrev before : ℕ → Bytes → Bytes
before c s = elim (cut c s) [ none ↦ s | some (a, b) ↦ a ]

-- string(info[1]); a text that short has no colon, so the index is never out of range.
unfoldable pub second_text : Bytes → Bytes
unfolding text_of_byte
second_text (a ∷ b ∷ r) = text_of_byte b
second_text _ = []

-- `none` is an error. The text that is returned is that of the byte info[1].
unfoldable pub get_sid_rest : Bytes → Option (ℕ × Bytes)
unfolding second_text
get_sid_rest info = elim (cut b'\n' info) [
  | none ↦ none
  | some (line, rest) ↦ elim (cut_last b':' line) [
    | none ↦ none
    | some (front, sid_at_hostname) ↦ elim (atoi (before b'@' sid_at_hostname)) [
      | none ↦ none
      | some sid ↦ some (to_uint32 sid, second_text info)
    ]
  ]
]

unfoldable pub empty_user : UserRecord
empty_user = record { authentication_protocol = []; dn = []; role = []; org = [] }

unfoldable pub set_user_field : Bytes → Bytes → UserRecord → UserRecord
set_user_field key value u =
    if eqb key (bytes "n")
    then record u { dn = value }
    else if eqb key (bytes "p")
    then record u { authentication_protocol = value }
    else if eqb key (bytes "o")
    then record u { org = value }
    else if eqb key (bytes "r")
    then record u { role = value }
    else u

unfoldable pub user_fields : UserRecord → List Bytes → UserRecord
unfolding set_user_field
user_fields u [] = u
user_fields u (pair ∷ pairs) =
    user_fields (elim (cut b'=' pair) [ none ↦ u | some (key, value) ↦ set_user_field key value u ])
      pairs

unfoldable pub user_of_auth : Bytes → UserRecord
unfolding user_fields empty_user
user_of_auth auth = user_fields empty_user (split auth b'&')
