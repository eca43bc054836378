-- ===== src/Parser/Info.antt =====
-- The text fields of map, user and token packets: `parseUserInfo`, `parseAuthInfo`,
-- `parseTokenInfo`, `parseServerInfo` and the helpers on byte slices.
pub mod RoundTrip
pub mod Fields
use xrootd_monitoring_shovel.Base.{
  ℕ, ◌≡◌, ◌≢◌, Bool, true, false, List, [], ◌∷◌, ◌++◌, Option, none, some, String, Bytes, bytes,
  eqb, is_empty, cut, cut_last, ℤ, pos, scan_int, scan_uint32, ◌==◌, if◌then◌else◌,
}
use xrootd_monitoring_shovel.Parser.Records.{UserInfo, AuthInfo, TokenInfo, ServerInfo}

-- The reasons for which user information is refused, in the order of the checks.
pub data InfoError : Type 0 where
  empty missing_at missing_colon missing_dot invalid_pid invalid_sid : InfoError

pub data InfoResult {ℓ} (A : Type ℓ) : Type ℓ where
  ok : A → InfoResult A
  err : InfoError → InfoResult A

infixl 5 ◌>>=◌
abbrev pub ◌>>=◌ {ℓ κ} :
    {A : Type ℓ} {B : Type κ} → InfoResult A → (A → InfoResult B) → InfoResult B
ok a >>= f = f a
err e >>= f = err e

abbrev pub or_error {ℓ} : {A : Type ℓ} → Option A → InfoError → InfoResult A
or_error none e = err e
or_error (some a) e = ok a

-- The protocol in front of the first slash, and the rest.
unfoldable pub split_protocol : Bytes → Bytes × Bytes
split_protocol b = elim (cut b'/' b) [ none ↦ ([], b) | some (p, s) ↦ (p, s) ]

-- `parseUserInfo` behind its test for an empty text.
unfoldable pub parse_filled : Bytes → InfoResult UserInfo
unfolding split_protocol
parse_filled b = do
  let (protocol, s) = split_protocol b
  (s, host) ← or_error (cut_last b'@' s) missing_at
  (s, sid_str) ← or_error (cut b':' s) missing_colon
  (username, pid_str) ← or_error (cut_last b'.' s) missing_dot
  pid ← or_error (scan_int pid_str) invalid_pid
  sid ← or_error (scan_int sid_str) invalid_sid
  ok (record { protocol = protocol; username = username; pid = pid; sid = sid; host = host })

unfoldable pub parse_user_info : Bytes → InfoResult UserInfo
parse_user_info [] = err empty
parse_user_info (c ∷ cs) = parse_filled (c ∷ cs)

-- `bytesplit`: the last part is left out if it is empty. `part` is what was read since the last
-- separator.
unfoldable pub split_onto : ℕ → Bytes → Bytes → List Bytes
split_onto sep part [] = if is_empty part then [] else part ∷ []
split_onto sep part (c ∷ cs) = elim (c == sep) [
  | true ↦ part ∷ split_onto sep [] cs
  | false ↦ split_onto sep (part ++ c ∷ []) cs
]

unfoldable pub bytesplit : Bytes → ℕ → List Bytes
bytesplit b sep = split_onto sep [] b

-- Key and value at the first `=`; a part with no `=`, or with nothing behind it, is passed over.
unfoldable pub key_value : Bytes → Option (Bytes × Bytes)
key_value part = elim (cut b'=' part) [
  | none ↦ none
  | some (key, value) ↦ if is_empty value then none else some (key, value)
]

-- The loop over the parts, for the assignment that a key and a value make.
unfoldable pub assign_all : {A : Type 0} → (A → Bytes → Bytes → A) → A → List Bytes → A
assign_all assign a [] = a
assign_all assign a (part ∷ parts) =
    assign_all assign (elim (key_value part) [ none ↦ a | some (k, v) ↦ assign a k v ]) parts

abbrev key_is : Bytes → String → Bool
key_is k s = eqb k (bytes s)

unfoldable pub assign_auth : AuthInfo → Bytes → Bytes → AuthInfo
assign_auth i k v =
    if key_is k "p"
    then record i { auth_protocol = v }
    else if key_is k "n"
    then record i { dn = v }
    else if key_is k "h"
    then record i { hostname = v }
    else if key_is k "o"
    then record i { org = v }
    else if key_is k "r"
    then record i { role = v }
    else if key_is k "g"
    then record i { groups = v }
    else if key_is k "m"
    then record i { info = v }
    else if key_is k "x"
    then record i { exec_name = v }
    else if key_is k "y"
    then record i { mon_info = v }
    else if key_is k "I"
    then record i { inet_version = v }
    else i

abbrev pub empty_auth : AuthInfo
empty_auth = record {
  auth_protocol = [];
  dn = [];
  hostname = [];
  org = [];
  role = [];
  groups = [];
  info = [];
  exec_name = [];
  mon_info = [];
  inet_version = [];
}

unfoldable pub parse_auth_info : Bytes → AuthInfo
unfolding assign_all assign_auth bytesplit split_onto key_value
parse_auth_info b = assign_all assign_auth empty_auth (bytesplit b b'&')

unfoldable pub assign_token : TokenInfo → Bytes → Bytes → TokenInfo
assign_token i k v =
    if key_is k "Uc"
    then (elim (scan_uint32 v) [ none ↦ i | some udid ↦ record i { user_dict_id = udid } ])
    else if key_is k "s"
    then record i { subject = v }
    else if key_is k "n"
    then record i { username = v }
    else if key_is k "o"
    then record i { org = v }
    else if key_is k "r"
    then record i { role = v }
    else if key_is k "g"
    then record i { groups = v }
    else i

abbrev pub empty_token : TokenInfo
empty_token = record {
  user_dict_id = 0;
  subject = [];
  username = [];
  org = [];
  role = [];
  groups = [];
}

unfoldable pub parse_token_info : Bytes → TokenInfo
unfolding assign_all assign_token bytesplit split_onto key_value
parse_token_info b = assign_all assign_token empty_token (bytesplit b b'&')

unfoldable pub assign_server : ServerInfo → Bytes → Bytes → ServerInfo
assign_server i k v =
    if key_is k "site"
    then record i { site = v }
    else if key_is k "port"
    then record i { port = v }
    else if key_is k "inst"
    then record i { instance_name = v }
    else if key_is k "pgm"
    then record i { program = v }
    else if key_is k "ver"
    then record i { version = v }
    else i

abbrev pub empty_server : ServerInfo
empty_server = record { site = []; port = []; instance_name = []; program = []; version = [] }

unfoldable pub parse_server_info : Bytes → ServerInfo
unfolding assign_all assign_server bytesplit split_onto key_value
parse_server_info b = assign_all assign_server empty_server (bytesplit b b'&')
