-- ===== src/Tests/Packets.antt =====
-- Packets that are read, and datagrams that are verified.
use xrootd_monitoring_shovel.Base.{ℕ, ◌≡◌, ◌↔◌, refl, true, [], ◌∷◌, Option, none, Bytes, arith}
use xrootd_monitoring_shovel.Parser.Packet.{parse_packet}
use xrootd_monitoring_shovel.Verify.{verify_packet}
use xrootd_monitoring_shovel.Verify.Agrees.{IsFramed, verify_packet_iff}

abbrev no_json : Bytes → Option ℕ
no_json b = none

-- 'd', a dictionary id and a path.
abbrev mapping : Bytes
mapping = b'd' ∷ 1 ∷ 0 ∷ 14 ∷ 0 ∷ 0 ∷ 0 ∷ 9 ∷ 0 ∷ 0 ∷ 0 ∷ 3 ∷ b'/' ∷ b'a' ∷ []

verify_packet_iff_example :
    (verify_packet mapping ≡ true) ↔ IsFramed (parse_packet ℕ no_json mapping)
verify_packet_iff_example = verify_packet_iff ℕ no_json mapping (omega arith)

accepted : verify_packet mapping ≡ true
unfolding verify_packet
accepted = refl
