-- ===== src/Parser/Packet/Shape.antt =====
-- What every packet that `ParsePacket` returns has.
use xrootd_monitoring_shovel.Base.{
  ◌≡◌, ◌≢◌, ◌⊎◌, true, false, [], ◌∷◌, Option, none, Bytes, length, has_prefix,
}
use xrootd_monitoring_shovel.Parser.Records.{Header}
use xrootd_monitoring_shovel.Parser.Packet.{PacketError, Result, ok, err, Packet}

-- Each part of a packet stands only in packets of the types that carry it.
pub record HasShape (Event : Type 0) (p : Packet Event) : Type 0 where
  pub code_is : p.packet_type ≡ p.header.code
  pub files : p.packet_type ≢ b'f' → p.file_records ≡ []
  pub events : p.packet_type ≢ b'g' → p.g_stream_record ≡ none
  pub server : p.packet_type ≢ b'=' → p.server_info ≡ none
  pub users : p.packet_type ≢ b'u' → p.packet_type ≢ b'T' → p.user_record ≡ none

module _ (Event : Type 0) (unmarshal : Bytes → Option Event) where
  -- The body's parts, for the type that the header names.
  abbrev Shaped : Header → Bytes → Result PacketError (Packet Event) → Type 0
  Shaped h b (err _) = Unit
  Shaped h b (ok p) = (p.raw_data ≡ b) × (p.is_xml ≡ false) × (p.header ≡ h) × HasShape Event p

  -- A packet that was read from `b`: its raw data are `b`; it is XML and `b` begins with '<', or
  -- its length field is the length of `b` and it has the shape of its type.
  abbrev pub ReadFrom : Bytes → Result PacketError (Packet Event) → Type 0
  ReadFrom b (err _) = Unit
  ReadFrom b (ok p) =
      (p.raw_data ≡ b)
      × (((p.is_xml ≡ true) × (has_prefix b (b'<' ∷ []) ≡ true))
          ⊎ ((p.is_xml ≡ false) × (p.header.plen ≡ length b) × HasShape Event p))
