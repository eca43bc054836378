-- ===== src/Service.antt =====
-- cmd/collector/main.go: the loop over received packets, and where the events of g-streams go.
-- connectors/output.go is in the module Outputs.
pub mod Outputs
pub mod Events
pub mod Bounds
pub mod Setup
use xrootd_monitoring_shovel.Base.{
  ℕ, suc, ◌+◌, Bool, true, false, List, [], ◌∷◌, ◌++◌, Option, none, some, Bytes, length, ltb,
  if◌then◌else◌,
}
use xrootd_monitoring_shovel.Parser.Packet.{Packet, GStreamRecord, ok, err, parse_packet}
use xrootd_monitoring_shovel.Collector.GoLib.{GoLib}
use xrootd_monitoring_shovel.Collector.Types.{CollectorRecord, Correlator}
use xrootd_monitoring_shovel.Collector.Correlator.{process_packet}
use xrootd_monitoring_shovel.Collector.WorkQueue.{WorkQueue, enqueue}
use xrootd_monitoring_shovel.Input.Rabbit.{PacketWithAddr}

-- A record with the WLCG exchange of its destination.
pub record EnrichmentRequest : Type 0 where
  pub collected : CollectorRecord
  pub wlcg_exchange : Bytes

module _ (Event : Type 0) where
  -- The correlator, the queue of its workers with the drops, and the channel of g-stream packets with
  -- its capacity and the drops, if it is there.
  pub record Service : Type 0 where
    pub correlator : Correlator
    pub enrichment_queue : WorkQueue EnrichmentRequest
    pub enrichment_drop_count : ℕ
    pub has_gstream_queue : Bool
    pub gstream_packets : List (Packet Event)
    pub gstream_capacity : ℕ
    pub gstream_drop_count : ℕ

  -- EnqueueForEnrichment on a queue that is there and a destination with its channel.
  unfoldable pub enqueue_for_enrichment : Bytes → CollectorRecord → Service → Service
  unfolding enqueue
  enqueue_for_enrichment wlcg_exchange r s =
      let ((enqueued, was_closed), q) =
        enqueue EnrichmentRequest (record { collected = r; wlcg_exchange = wlcg_exchange })
          s.enrichment_queue in
      record s {
        enrichment_queue = q;
        enrichment_drop_count =
            if enqueued
            then s.enrichment_drop_count
            else if was_closed
            then s.enrichment_drop_count
            else suc s.enrichment_drop_count;
      }

  unfoldable pub enqueue_records : Bytes → List CollectorRecord → Service → Service
  unfolding enqueue_for_enrichment
  enqueue_records wlcg_exchange [] s = s
  enqueue_records wlcg_exchange (r ∷ rs) s =
      enqueue_records wlcg_exchange rs (enqueue_for_enrichment wlcg_exchange r s)

  -- The send on the channel of g-stream packets, or the drop if it is full.
  unfoldable pub offer_gstream : Packet Event → Service → Service
  offer_gstream p s =
      if ltb (length s.gstream_packets) s.gstream_capacity
      then record s { gstream_packets = s.gstream_packets ++ p ∷ [] }
      else record s { gstream_drop_count = suc s.gstream_drop_count }

  module _ (lib : GoLib) (unmarshal : Bytes → Option Event) where
    -- ProcessPacket makes no error.
    unfoldable pub handle_parsed_packet : ℕ → Bytes → Packet Event → Service → Service
    unfolding offer_gstream enqueue_records process_packet
    handle_parsed_packet now wlcg_exchange p s = elim p.g_stream_record [
      | some g ↦ if s.has_gstream_queue then offer_gstream p s else s
      | none ↦
          let (records, c) = process_packet lib now p s.correlator in
          enqueue_records wlcg_exchange records (record s { correlator = c })
    ]

    -- One round of processPackets: a packet that is not parsed changes nothing.
    unfoldable pub process_one : ℕ → Bytes → PacketWithAddr → Service → Service
    unfolding parse_packet handle_parsed_packet
    process_one now wlcg_exchange p s = elim (parse_packet Event unmarshal p.content) [
      | err e ↦ s
      | ok packet ↦
          handle_parsed_packet now wlcg_exchange (record packet { remote_addr = p.remote_addr }) s
    ]

    -- processPackets, with the time of each packet.
    unfoldable pub process_packets : Bytes → List (ℕ × PacketWithAddr) → Service → Service
    unfolding process_one
    process_packets wlcg_exchange [] s = s
    process_packets wlcg_exchange ((now, p) ∷ ps) s =
        process_packets wlcg_exchange ps (process_one now wlcg_exchange p s)
