-- ===== src/Verify/Agrees.antt =====
-- `VerifyPacket` and `ParsePacket` agree on the framing of a packet.
use xrootd_monitoring_shovel.Base.{
  ◌≤◌, ◌≡◌, ◌↔◌, refl, Bool, true, false, ◌∷◌, Option, Bytes, length, arith, ◌==◌, if◌then◌else◌,
}
use xrootd_monitoring_shovel.Parser.Records.{Header}
use xrootd_monitoring_shovel.Parser.Wire.{u8, u16, u32}
use xrootd_monitoring_shovel.Parser.Packet.{
  PacketError, length_mismatch, unknown_type, bad_body, Result, ok, err, read_header, parse_body,
  parse_binary, parse_packet,
}
use xrootd_monitoring_shovel.Verify.{verify_packet}

-- The packet's framing was accepted; only its type or its body may have been refused.
abbrev pub IsFramed : {A : Type 0} → Result PacketError A → Type 0
IsFramed (ok _) = Unit
IsFramed (err unknown_type) = Unit
IsFramed (err (bad_body _)) = Unit
IsFramed (err _) = ⊥

IsFramed-iff :
    {A : Type 0} (xml equal : Bool) (a r : Result PacketError A)
    → IsFramed a
    → IsFramed r
    → ((if xml then true else equal) ≡ true)
      ↔ IsFramed (if xml then a else if equal then r else err length_mismatch)
IsFramed-iff true equal a r h k = ((λ _. h), (λ _. refl))
IsFramed-iff false true a r h k = ((λ _. k), (λ _. refl))
IsFramed-iff false false a r h k = ((λ e. cc), (λ f. absurd f))

module _ (Event : Type 0) (unmarshal : Bytes → Option Event) where
  parse_body-IsFramed : (h : Header) (b : Bytes) → IsFramed (parse_body Event unmarshal h b)
  unfolding parse_body
  parse_body-IsFramed h b = ground arith

  -- On a datagram of eight bytes or more, `VerifyPacket` accepts exactly what `ParsePacket` does
  -- not refuse for its length: it returns a packet, or refuses the packet's type or body.
  pub verify_packet_iff :
      (b : Bytes)
      → 8 ≤ length b
      → (verify_packet b ≡ true) ↔ IsFramed (parse_packet Event unmarshal b)
  unfolding verify_packet parse_packet parse_binary read_header u8 u16 u32
  verify_packet_iff (c ∷ p ∷ l1 ∷ l0 ∷ s3 ∷ s2 ∷ s1 ∷ s0 ∷ r) h =
      IsFramed-iff (c == b'<') _ (ok _) _ tt (parse_body-IsFramed _ _)
  verify_packet_iff _ h = absurd (omega arith)
