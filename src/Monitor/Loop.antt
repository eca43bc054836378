-- ===== src/Monitor/Loop.antt =====
-- The loop over the records of an f-stream packet in HandlePacket of metrics/xrootd_metrics.go.
use xrootd_monitoring_shovel.Base.{
  ℕ, zero, suc, ◌+◌, ◌%◌, ◌==◌, true, false, Option, none, some, ltb, length, drop, if◌then◌else◌,
}
use xrootd_monitoring_shovel.Parser.Wire.{◌>>=◌, u16}
use xrootd_monitoring_shovel.Monitor.Memory.{Packet, piece, plus32, minus16, widen}
use xrootd_monitoring_shovel.Monitor.State.{
  Library, Monitor, Outcome, finished, failed, panicked, running,
}
use xrootd_monitoring_shovel.Monitor.Files.{FileHeader, parse_file_header, file_record}

-- The header of the record at the offset; `none` is a panic. Its slice has eight bytes, so
-- ParseFileHeader makes no error.
unfoldable pub header_at : Packet → ℕ → Option FileHeader
unfolding piece parse_file_header
header_at p offset = elim (piece p offset (plus32 offset 8)) [
  | none ↦ none
  | some b ↦ parse_file_header b
]

module _ (lib : Library) where
  -- One round at the uint32 offset with the uint16 bytesRemain: both afterwards, and the state.
  unfoldable pub record_round : Packet → ℕ → ℕ → Monitor lib → Option (ℕ × ℕ × Monitor lib)
  unfolding header_at file_record
  record_round p offset remain s = do
    h ← header_at p offset
    s' ← file_record lib p offset h s
    some (plus32 offset (widen h.rec_size), minus16 remain h.rec_size, s')

  -- Each round uses one unit of the first argument, the fuel.
  unfoldable pub record_loop : ℕ → Packet → ℕ → ℕ → Monitor lib → Outcome (Monitor lib)
  unfolding record_round
  record_loop zero p offset remain s = if remain == 0 then finished s else running
  record_loop (suc fuel) p offset remain s = elim (remain == 0) [
    | true ↦ finished s
    | false ↦ elim (record_round p offset remain s) [
      | none ↦ panicked
      | some (offset', remain', s') ↦ record_loop fuel p offset' remain' s'
    ]
  ]

  -- Case 'f' of a packet with the given Plen. The first record is passed over by its size, which is
  -- a uint16, as is the sum with the header's 8 bytes.
  unfoldable pub handle_f_stream : ℕ → Packet → ℕ → Monitor lib → Outcome (Monitor lib)
  unfolding record_loop
  handle_f_stream fuel p plen s =
      if ltb (length p.content) 32 then failed s else elim (u16 (drop 10 p.content)) [
        | none ↦ panicked
        | some (first, _) ↦
            let offset = (first + 8) % 0x10000 in
            if ltb first 24 then failed s else record_loop fuel p offset (minus16 plen offset) s
      ]
