-- ===== src/Service/Bounds.antt =====
-- What the collector keeps between packets stays bounded.
use xrootd_monitoring_shovel.Base.{
  if-elim, ℕ, ◌≡◌, ◌≤◌, ◌∙◌, List, [], ◌∷◌, length, length-append, Option, Bytes, ltb, arith,
  Bool-cases, Option-cases, inl, inr,
}
use xrootd_monitoring_shovel.Parser.Packet.{Packet, Result, ok, err, PacketError, parse_packet}
use xrootd_monitoring_shovel.Collector.GoLib.{GoLib}
use xrootd_monitoring_shovel.Collector.Types.{CollectorRecord}
use xrootd_monitoring_shovel.Collector.Correlator.{process_packet}
use xrootd_monitoring_shovel.Collector.Correlator.Invariant.{MapsValid, process_packet-MapsValid}
use xrootd_monitoring_shovel.Collector.WorkQueue.View.{IsValid}
use xrootd_monitoring_shovel.Collector.WorkQueue.Refines.{enqueue-IsValid, capacity-enqueue}
use xrootd_monitoring_shovel.Input.Rabbit.{PacketWithAddr}
use xrootd_monitoring_shovel.Service.{
  EnrichmentRequest, Service, enqueue_for_enrichment, enqueue_records, offer_gstream,
  handle_parsed_packet, process_one, process_packets,
}

module _ (Event : Type 0) where
  -- The maps are within their maximum, the queue of the workers is valid and has the capacity n, and
  -- at most m packets of g-streams wait.
  pub record IsBounded (n m : ℕ) (s : Service Event) : Type 0 where
    pub maps : MapsValid s.correlator
    pub queue : IsValid EnrichmentRequest s.enrichment_queue
    pub queue_capacity : s.enrichment_queue.capacity ≡ n
    pub gstreams : length s.gstream_packets ≤ m
    pub gstream_capacity : s.gstream_capacity ≡ m

  module _ (n m : ℕ) where
    enqueue_for_enrichment-IsBounded :
        (exchange : Bytes) (r : CollectorRecord) (s : Service Event)
        → IsBounded n m s
        → IsBounded n m (enqueue_for_enrichment Event exchange r s)
    unfolding enqueue_for_enrichment
    enqueue_for_enrichment-IsBounded exchange r s b = record {
      maps = b.maps;
      queue = enqueue-IsValid EnrichmentRequest _ s.enrichment_queue b.queue;
      queue_capacity = capacity-enqueue EnrichmentRequest _ s.enrichment_queue ∙ b.queue_capacity;
      gstreams = b.gstreams;
      gstream_capacity = b.gstream_capacity;
    }

    enqueue_records-IsBounded :
        (exchange : Bytes) (rs : List CollectorRecord) (s : Service Event)
        → IsBounded n m s
        → IsBounded n m (enqueue_records Event exchange rs s)
    unfolding enqueue_records
    enqueue_records-IsBounded exchange [] s b = b
    enqueue_records-IsBounded exchange (r ∷ rs) s b =
        enqueue_records-IsBounded exchange rs (enqueue_for_enrichment Event exchange r s)
          (enqueue_for_enrichment-IsBounded exchange r s b)

    offer_gstream-IsBounded :
        (p : Packet Event) (s : Service Event)
        → IsBounded n m s
        → IsBounded n m (offer_gstream Event p s)
    unfolding offer_gstream
    offer_gstream-IsBounded p s b =
        elim (Bool-cases (ltb (length s.gstream_packets) s.gstream_capacity)) [
          | inl room ↦ rw room (record {
            maps = b.maps;
            queue = b.queue;
            queue_capacity = b.queue_capacity;
            gstreams = ground (arith, b.gstream_capacity, length-append s.gstream_packets (p ∷ []));
            gstream_capacity = b.gstream_capacity;
          })
          | inr full ↦ rw full (record {
            maps = b.maps;
            queue = b.queue;
            queue_capacity = b.queue_capacity;
            gstreams = b.gstreams;
            gstream_capacity = b.gstream_capacity;
          })
        ]

    module _ (lib : GoLib) (unmarshal : Bytes → Option Event) where
      handle_parsed_packet-IsBounded :
          (now : ℕ) (exchange : Bytes) (p : Packet Event) (s : Service Event)
          → IsBounded n m s
          → IsBounded n m (handle_parsed_packet Event lib unmarshal now exchange p s)
      unfolding handle_parsed_packet enqueue_records
      handle_parsed_packet-IsBounded now exchange p s b = elim (Option-cases p.g_stream_record) [
        | inl e ↦
            rw (handle_parsed_packet, e)
              (enqueue_records-IsBounded exchange (process_packet lib now p s.correlator).0
                (record s { correlator = (process_packet lib now p s.correlator).1 })
                (record {
                  maps = process_packet-MapsValid lib now p s.correlator b.maps;
                  queue = b.queue;
                  queue_capacity = b.queue_capacity;
                  gstreams = b.gstreams;
                  gstream_capacity = b.gstream_capacity;
                }))
        | inr (g, e) ↦
            rw (handle_parsed_packet, e)
              (if-elim (IsBounded n m) s.has_gstream_queue (offer_gstream-IsBounded p s b) b)
      ]

      process_one-IsBounded :
          (now : ℕ) (exchange : Bytes) (p : PacketWithAddr) (s : Service Event)
          → IsBounded n m s
          → IsBounded n m (process_one Event lib unmarshal now exchange p s)
      unfolding process_one
      process_one-IsBounded now exchange p s b = go (parse_packet Event unmarshal p.content)
        where
          go :
              (o : Result PacketError (Packet Event))
              → IsBounded n m (elim o [
                | err e ↦ s
                | ok packet ↦
                    handle_parsed_packet Event lib unmarshal now exchange
                      (record packet { remote_addr = p.remote_addr })
                      s
              ])
          go (err e) = b
          go (ok packet) =
              handle_parsed_packet-IsBounded now exchange
                (record packet { remote_addr = p.remote_addr }) s b

      -- Whatever datagrams arrive, and whenever: the correlator's maps stay within their maximum, the
      -- queue of the workers stays valid, within its capacity, and so do the waiting g-stream packets.
      pub process_packets-IsBounded :
          (exchange : Bytes) (ps : List (ℕ × PacketWithAddr)) (s : Service Event)
          → IsBounded n m s
          → IsBounded n m (process_packets Event lib unmarshal exchange ps s)
      unfolding process_packets
      process_packets-IsBounded exchange [] s b = b
      process_packets-IsBounded exchange ((now, p) ∷ ps) s b =
          process_packets-IsBounded exchange ps (process_one Event lib unmarshal now exchange p s)
            (process_one-IsBounded now exchange p s b)
