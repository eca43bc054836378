-- ===== src/Tests/Monitors.antt =====
-- The monitor with caches that keep everything, and a registry that keeps every addition.
use xrootd_monitoring_shovel.Base.{
  ℕ, ◌+◌, ◌≡◌, ◌≢◌, refl, List, [], ◌∷◌, ◌++◌, map, Option, none, some, Bytes, bytes, ℤ, pos,
  negsuc, ◌==◌, arith, if◌then◌else◌, split, cut, cut_last, atoi, signed_by, number_below,
  only_digits,
}
use xrootd_monitoring_shovel.Parser.Wire.{u16, u32}
use xrootd_monitoring_shovel.Monitor.Memory.{Packet, word64}
use xrootd_monitoring_shovel.Monitor.State.{
  Library, Monitor, FileRecord, UserRecord, Cache, CacheLaws, Registry, RegistryLaws, Counter, Kind,
  finished, running,
}
use xrootd_monitoring_shovel.Monitor.Users.{empty_user}
use xrootd_monitoring_shovel.Monitor.Files.{FileHeader, empty_file, xfr_record, close_record}
use xrootd_monitoring_shovel.Monitor.Loop.{header_at, record_loop}
use xrootd_monitoring_shovel.Monitor.Summary.{summary_stats}
use xrootd_monitoring_shovel.Monitor.{handle_packet}
use xrootd_monitoring_shovel.Monitor.Rounds.{IsSized, Leaves, record_loop-IsSized}
use xrootd_monitoring_shovel.Monitor.NoPath.{HasNoPath}
use xrootd_monitoring_shovel.Monitor.Transfers.{handle_packet-HasNoPath}
use xrootd_monitoring_shovel.Monitor.Closes.{close_record-xfr_record}
use xrootd_monitoring_shovel.Monitor.Logins.{handle_packet-login}
use xrootd_monitoring_shovel.Monitor.Readings.{
  Reading, link_reading, LastIs, last_of, added, is_connections, is_rx, is_tx, summary_stats-added,
}

abbrev kept : {V : Type 0} → ℕ → List (ℕ × V) → Option V
kept k [] = none
kept k ((j, v) ∷ m) = if j == k then some v else kept k m

abbrev without : {V : Type 0} → ℕ → List (ℕ × V) → List (ℕ × V)
without k [] = []
without k ((j, v) ∷ m) = let rest = without k m in if j == k then rest else (j, v) ∷ rest

abbrev all_kept : (V : Type 0) → Cache V
all_kept V = record {
  C = List (ℕ × V);
  get = kept;
  touch = λ k c. c;
  set = λ k v c. (k, v) ∷ c;
  delete = without;
}

kept-without : {V : Type 0} (k : ℕ) (c : List (ℕ × V)) → kept k (without k c) ≡ none
kept-without k [] = refl
kept-without k ((j, v) ∷ c) = ground (arith, kept-without k c)

kept-without_other :
    {V : Type 0} (k i : ℕ) (c : List (ℕ × V)) → k ≢ i → kept k (without i c) ≡ kept k c
kept-without_other k i [] n = refl
kept-without_other k i ((j, v) ∷ c) n = ground (arith, kept-without_other k i c n)

keeps : (V : Type 0) → CacheLaws (all_kept V)
keeps V = record {
  get-touch = λ k j c. refl;
  get-set = λ k v c. ground arith;
  get-set_other = λ k j v c n. ground arith;
  get-delete = kept-without;
  get-delete_other = kept-without_other;
}

abbrev all_added : Registry
all_added = record {
  R = List (Counter × ℤ);
  add = λ c v r. elim v [ pos n ↦ some ((c, pos n) ∷ r) | negsuc n ↦ none ];
}

adds : RegistryLaws all_added
adds = record {
  history = λ r. r;
  add-pos = λ c n r. ((c, pos n) ∷ r, refl, refl);
  add-negsuc = λ c n r. refl;
}

abbrev monitor_lib : Library
monitor_lib = record {
  users = all_kept UserRecord;
  files = all_kept FileRecord;
  registry = all_added;
  unmarshal = λ b. none;
}

abbrev idle : Monitor monitor_lib
idle = record {
  sessions = [];
  transfers = [];
  counters = [];
  last_connections = pos 0;
  last_in_bytes = pos 0;
  last_out_bytes = pos 0;
  threads_idle = pos 0;
  threads_running = pos 0;
}

abbrev packet : Bytes → Packet
packet b = record { content = b; behind = [] }

-- A user's login that names the protocol and the user.
abbrev login : Packet
login =
    packet (b'u' ∷ 0 ∷ 0 ∷ 38 ∷ 0 ∷ 0 ∷ 0 ∷ 0 ∷ 0 ∷ 0 ∷ 0 ∷ 5 ∷ bytes "gsi/a.1:7@h\n&p=gsi&n=alice")

abbrev nobody : Monitor monitor_lib
nobody = record idle { sessions = (7, empty_user) ∷ [] }

handle_packet-login_example : (id : ℕ) × (nobody ≡ record idle { sessions = (id, empty_user) ∷ [] })
unfolding handle_packet cut cut_last atoi signed_by number_below only_digits split
handle_packet-login_example = handle_packet-login monitor_lib 9 [] login _ idle nobody refl refl

-- A file of user 7 is opened under the name "/a", closed with 5, 6 and 7 bytes moved, and the first
-- record is one of time.
abbrev time_record : Bytes
time_record =
    2 ∷ 0 ∷ 0 ∷ 24 ∷ 0 ∷ 0 ∷ 0 ∷ 0 ∷ 0 ∷ 0 ∷ 0 ∷ 0 ∷ 0 ∷ 0 ∷ 0 ∷ 0 ∷ 0 ∷ 0 ∷ 0 ∷ 0 ∷ 0 ∷ 0 ∷ 0 ∷ 0
    ∷ []

abbrev open_bytes : Bytes
open_bytes =
    1 ∷ 1 ∷ 0 ∷ 23 ∷ 0 ∷ 0 ∷ 0 ∷ 3 ∷ 0 ∷ 0 ∷ 0 ∷ 0 ∷ 0 ∷ 0 ∷ 0 ∷ 0 ∷ 0 ∷ 0 ∷ 0 ∷ 7 ∷ b'/' ∷ b'a' ∷ 0
    ∷ []

abbrev word : ℕ → Bytes
word n = 0 ∷ 0 ∷ 0 ∷ 0 ∷ 0 ∷ 0 ∷ 0 ∷ n ∷ []

abbrev moving : ℕ → ℕ → ℕ → ℕ → Bytes
moving kind a b c = kind ∷ 0 ∷ 0 ∷ 32 ∷ 0 ∷ 0 ∷ 0 ∷ 3 ∷ (word a ++ word b ++ word c)

abbrev stream : ℕ → Bytes → Packet
stream plen records = packet (b'f' ∷ 0 ∷ 0 ∷ plen ∷ 0 ∷ 0 ∷ 0 ∷ 0 ∷ (time_record ++ records))

abbrev opening : Packet
opening = stream 55 open_bytes

abbrev opened_file : Monitor monitor_lib
opened_file = record idle { transfers = (3, record empty_file { user_id = 7 }) ∷ [] }

opening_runs : handle_packet monitor_lib 2 [] opening idle ≡ finished opened_file
unfolding handle_packet empty_file u16
opening_runs = refl

handle_packet-HasNoPath_example :
    Leaves monitor_lib (HasNoPath monitor_lib) (handle_packet monitor_lib 2 [] opening idle)
handle_packet-HasNoPath_example =
    handle_packet-HasNoPath monitor_lib (keeps FileRecord) 2 [] opening idle
      (λ rest e. absurd (ground arith)) (λ k f e. absurd (ground arith))

abbrev closing_header : FileHeader
closing_header = record { rec_type = 0; rec_flag = 0; rec_size = 32; file_id = 3; user_id = 3 }

close_record-xfr_record_example :
    (s' s'' : Monitor monitor_lib) × (l : _) × (xfr_record monitor_lib
        (stream 64 (moving 3 1 2 3))
        32
        closing_header
        opened_file
      ≡ some s')
    × (close_record monitor_lib (stream 64 (moving 0 5 6 7)) 32 closing_header s' ≡ some s'')
    × (s''.counters
        ≡ (Counter.transfer_bytes l Kind.write, pos 4)
          ∷ (Counter.transfer_bytes l Kind.readv, pos 4)
          ∷ (Counter.transfer_bytes l Kind.read, pos 4)
          ∷ [])
unfolding word64 u32 adds
close_record-xfr_record_example =
    close_record-xfr_record monitor_lib adds (keeps FileRecord) (stream 64 (moving 3 1 2 3))
      (stream 64 (moving 0 5 6 7)) 32 32 1 2 3 5 6 7 closing_header closing_header opened_file refl
      refl (refl, refl, refl) (refl, refl, refl) (omega arith) (omega arith)

-- A time record whose size field is 0, and one byte behind it.
abbrev stuck : Packet
stuck = stream 41 (2 ∷ 0 ∷ 0 ∷ 0 ∷ 0 ∷ 0 ∷ 0 ∷ 3 ∷ 0 ∷ [])

record_loop-IsSized_example : record_loop monitor_lib 23 opening 32 23 idle ≢ running
unfolding header_at
record_loop-IsSized_example =
    record_loop-IsSized monitor_lib opening 23 idle
      (IsSized.next (record { rec_type = 1; rec_flag = 1; rec_size = 23; file_id = 3; user_id = 3 })
        refl (omega arith) (omega arith) (omega arith) IsSized.done)
      (omega arith) (omega arith) (omega arith)

abbrev first_reading : Reading
first_reading = record { links = 0; bytes_in = 0; bytes_out = 0 }

abbrev readings : List Reading
readings =
    record { links = 2; bytes_in = 474; bytes_out = 1117 }
    ∷ record { links = 3; bytes_in = 500; bytes_out = 1117 }
    ∷ record { links = 1; bytes_in = 10; bytes_out = 20 }
    ∷ []

-- After the restart the counters have 3 + 1 connections, and 500 + 10 and 1117 + 20 bytes.
summary_stats-added_example :
    (s' : Monitor monitor_lib) × (summary_stats monitor_lib (map link_reading readings) idle
      ≡ some s')
    × LastIs monitor_lib adds (last_of first_reading readings) s'
    × (added is_connections s'.counters + 0 ≡ 0 + 1 + 3)
    × (added is_rx s'.counters + 0 ≡ 0 + 10 + 500)
    × (added is_tx s'.counters + 0 ≡ 0 + 20 + 1117)
unfolding adds
summary_stats-added_example =
    summary_stats-added monitor_lib adds first_reading readings idle (refl, refl, refl)
      (omega arith) (omega arith)
