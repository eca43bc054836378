-- ===== src/Tests/Services.antt =====
-- The collector on a few datagrams.
use xrootd_monitoring_shovel.Base.{
  ℕ, refl, true, false, List, [], ◌∷◌, Option, none, Bytes, bytes, arith,
}
use xrootd_monitoring_shovel.Input.Rabbit.{PacketWithAddr}
use xrootd_monitoring_shovel.Service.{Service, process_packets}
use xrootd_monitoring_shovel.Service.Bounds.{IsBounded, process_packets-IsBounded}
use xrootd_monitoring_shovel.Tests.States.{lib, collector, collector-MapsValid}

abbrev no_events : Bytes → Option ℕ
no_events b = none

abbrev starting : Service ℕ
starting = record {
  correlator = collector;
  enrichment_queue = record { pages = []; size = 0; closed = false; capacity = 2 };
  enrichment_drop_count = 0;
  has_gstream_queue = true;
  gstream_packets = [];
  gstream_capacity = 3;
  gstream_drop_count = 0;
}

starting-IsBounded : IsBounded ℕ 2 3 starting
starting-IsBounded = record {
  maps = collector-MapsValid;
  queue = record { pages_are = tt; size_is = refl; bounded = omega arith };
  queue_capacity = refl;
  gstreams = omega arith;
  gstream_capacity = refl;
}

-- A path, and a datagram that is no packet.
abbrev received : List (ℕ × PacketWithAddr)
received =
    (
      1,
      record {
        content = b'd' ∷ 1 ∷ 0 ∷ 14 ∷ 0 ∷ 0 ∷ 0 ∷ 9 ∷ 0 ∷ 0 ∷ 0 ∷ 3 ∷ b'/' ∷ b'a' ∷ [];
        remote_addr = bytes "1.2.3.4:5";
      },
    )
    ∷ (2, record { content = 1 ∷ 2 ∷ []; remote_addr = bytes "1.2.3.4:5" })
    ∷ []

process_packets-IsBounded_example :
    IsBounded ℕ 2 3 (process_packets ℕ lib no_events (bytes "wlcg") received starting)
process_packets-IsBounded_example =
    process_packets-IsBounded ℕ 2 3 lib no_events (bytes "wlcg") received starting
      starting-IsBounded
