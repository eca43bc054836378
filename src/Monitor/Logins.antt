-- ===== src/Monitor/Logins.antt =====
-- GetSIDRest returns the text of one byte, so no user that logs in gets a field.
use xrootd_monitoring_shovel.Base.{
  ℕ, ◌*◌, ◌+◌, List, split_all, ◌≡◌, refl, [], ◌∷◌, some, Bytes, split, cut, eqb, arith,
}
use xrootd_monitoring_shovel.Monitor.State.{Library, Monitor, finished}
use xrootd_monitoring_shovel.Monitor.Memory.{Packet}
use xrootd_monitoring_shovel.Monitor.Users.{
  text_of_byte, second_text, get_sid_rest, empty_user, user_fields, user_of_auth, set_user_field,
}
use xrootd_monitoring_shovel.Monitor.{handle_login, handle_packet, handle_code, starts_xml}

user_of_auth-none : user_of_auth [] ≡ empty_user
unfolding user_of_auth user_fields split split_all cut
user_of_auth-none = refl

-- No byte of the text is a letter with an equals sign behind it.
user_of_auth-text_of_byte : (b : ℕ) → user_of_auth (text_of_byte b) ≡ empty_user
unfolding user_of_auth text_of_byte user_fields set_user_field split split_all cut eqb
user_of_auth-text_of_byte b = ground arith

user_of_auth-second_text : (b : Bytes) → user_of_auth (second_text b) ≡ empty_user
unfolding second_text
user_of_auth-second_text (a ∷ b ∷ r) = user_of_auth-text_of_byte b
user_of_auth-second_text [] = user_of_auth-none
user_of_auth-second_text (a ∷ []) = user_of_auth-none

user_of_auth-get_sid_rest :
    (info auth : Bytes) (id : ℕ)
    → get_sid_rest info ≡ some (id, auth)
    → user_of_auth auth ≡ empty_user
unfolding get_sid_rest
user_of_auth-get_sid_rest info auth id e = ground (arith, user_of_auth-second_text info)

module _ (lib : Library) where
  handle_login-empty :
      (p : Packet) (plen : ℕ) (s s' : Monitor lib)
      → handle_login lib p plen s ≡ finished s'
      → (id : ℕ) × (s' ≡ record s { sessions = lib.users.set id empty_user s.sessions })
  unfolding handle_login
  handle_login-empty p plen s s' e = grind (arith, user_of_auth-get_sid_rest)

  -- A user login packet that is handled stores a user whose protocol, name, role and organization
  -- are empty, whatever its text says, and changes nothing else.
  pub handle_packet-login :
      (fuel : ℕ) (paths : List (List Bytes)) (p : Packet) (rest : Bytes) (s s' : Monitor lib)
      → p.content ≡ b'u' ∷ rest
      → handle_packet lib fuel paths p s ≡ finished s'
      → (id : ℕ) × (s' ≡ record s { sessions = lib.users.set id empty_user s.sessions })
  unfolding handle_packet handle_code starts_xml
  handle_packet-login fuel paths p (a ∷ b ∷ c ∷ r) s s' h e =
      ground (arith, handle_login-empty p (b * 256 + c) s s')
  handle_packet-login fuel paths p rest s s' h e = ground arith
