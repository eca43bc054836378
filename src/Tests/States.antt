-- ===== src/Tests/States.antt =====
-- State maps and the correlator's handlers, on small maps.
use xrootd_monitoring_shovel.Base.{
  ℕ, ◌≤◌, ◌<◌, ◌≡◌, ◌↔◌, refl, inr, false, ◌&&◌, List, [], ◌∷◌, none, some, Bytes, bytes, pos,
  lookup, eqb, eqb_refl, ltb, length, arith, if◌then◌else◌,
}
use xrootd_monitoring_shovel.Parser.Records.{
  Header, UserInfo, UserRecord, open_record, disconnect_record, close_record, FileRecord,
}
use xrootd_monitoring_shovel.Parser.Info.{empty_auth, empty_token}
use xrootd_monitoring_shovel.Parser.Packet.{Packet}
use xrootd_monitoring_shovel.Collector.State.{
  StateMap, new_state_map, set, get, cleanup, size, get_all, is_full_for, delete,
}
use xrootd_monitoring_shovel.Collector.State.Invariant.{
  IsValid, setting, deleting, cleaning, apply_all, apply_all-IsValid, new_state_map-IsValid,
  set-IsValid,
}
use xrootd_monitoring_shovel.Collector.State.View.{
  get-set, set_refused_iff, get-cleanup, lookup-get_all,
}
use xrootd_monitoring_shovel.Collector.GoLib.{GoLib, not_ip}
use xrootd_monitoring_shovel.Collector.Keys.{build_file_key, build_dict_id_key, build_user_info_key}
use xrootd_monitoring_shovel.Collector.Types.{Correlator, user}
use xrootd_monitoring_shovel.Collector.Lookup.{get_user_info, minimal_user}
use xrootd_monitoring_shovel.Collector.Record.{create_correlated_record}
use xrootd_monitoring_shovel.Collector.Correlator.{
  handle_file_open, handle_file_close, open_state, handle_user_record, handle_disconnect,
  user_state_of, process_packet, process_records,
}
use xrootd_monitoring_shovel.Collector.Correlator.Frame.{process_packets}
use xrootd_monitoring_shovel.Collector.Correlator.OpenClose.{handle_file_close-correlates}
use xrootd_monitoring_shovel.Collector.Correlator.Invariant.{
  MapsValid, process_packet-MapsValid, length-process_records,
}
use xrootd_monitoring_shovel.Collector.Correlator.Users.{
  get_user_info-handle_user_record, get_user_info-handle_token, get_user_info-handle_disconnect,
}
use xrootd_monitoring_shovel.Tests.Files.{opened, closed, left}

abbrev no_map : StateMap ℕ
no_map = new_state_map 10 2

abbrev one_entry : StateMap ℕ
one_entry = (set 5 (bytes "a") 1 no_map).1

one_entry-IsValid : IsValid one_entry
one_entry-IsValid = set-IsValid 5 (bytes "a") 1 no_map (new_state_map-IsValid 10 2)

get-set_example : get 9 (bytes "a") (set 5 (bytes "a") 1 no_map).1 ≡ (
    if (set 5 (bytes "a") 1 no_map).0 && eqb (bytes "a") (bytes "a")
    then (if ltb 15 9 then none else some 1)
    else get 9 (bytes "a") no_map)
get-set_example = get-set 9 5 (bytes "a") (bytes "a") 1 no_map

apply_all-IsValid_example : IsValid (
    apply_all
      (setting 1 (bytes "a") 1
        ∷ setting 2 (bytes "b") 2
        ∷ setting 3 (bytes "c") 3
        ∷ deleting (bytes "a")
        ∷ cleaning 20
        ∷ [])
      no_map)
apply_all-IsValid_example =
    apply_all-IsValid
      (setting 1 (bytes "a") 1
        ∷ setting 2 (bytes "b") 2
        ∷ setting 3 (bytes "c") 3
        ∷ deleting (bytes "a")
        ∷ cleaning 20
        ∷ [])
      no_map (new_state_map-IsValid 10 2)

set_refused_iff_at_input : ((set 6 (bytes "b") 2 one_entry).0 ≡ false) ↔ (
    (0 < one_entry.max_entries)
    × (one_entry.max_entries ≤ size one_entry)
    × (lookup (bytes "b") one_entry.entries ≡ none))
set_refused_iff_at_input = set_refused_iff 6 (bytes "b") 2 one_entry

get-cleanup_at_input : get 12 (bytes "a") (cleanup 11 one_entry).1 ≡ get 12 (bytes "a") one_entry
get-cleanup_at_input = get-cleanup 11 12 (bytes "a") one_entry one_entry-IsValid (omega arith)

lookup-get_all_at_input : lookup (bytes "a") (get_all 9 one_entry) ≡ get 9 (bytes "a") one_entry
lookup-get_all_at_input = lookup-get_all 9 (bytes "a") one_entry one_entry-IsValid

-- A library for which no text is an address.
abbrev pub lib : GoLib
lib = record { parse_ip = λ _. not_ip; split_host_port = λ _. none; lower_wide = λ s. s }

abbrev pub collector : Correlator
collector = record {
  state_map = new_state_map 100 1;
  user_map = new_state_map 100 1;
  dict_map = new_state_map 100 1;
  server_map = new_state_map 100 1;
  dns_cache = new_state_map 100 0;
  enable_dns_enrichment = false;
  scitags = record { experiments = []; activities = []; version = 0; modified = [] };
}

pub collector-MapsValid : MapsValid collector
collector-MapsValid = record {
  states = new_state_map-IsValid 100 1;
  users = new_state_map-IsValid 100 1;
  dicts = new_state_map-IsValid 100 1;
  servers = new_state_map-IsValid 100 1;
}

abbrev pub server_9 : Bytes
server_9 = bytes "9#s"

abbrev header_9 : Header
header_9 = record { code = b'f'; pseq = 0; plen = 64; server_start = pos 9 }

abbrev file_packet : List FileRecord → Packet ℕ
file_packet rs = record {
  header = header_9;
  packet_type = b'f';
  is_xml = false;
  raw_data = [];
  remote_addr = bytes "s";
  map_record = none;
  user_record = none;
  file_records = rs;
  g_stream_record = none;
  server_info = none;
}

-- The packets between: one of another file of the server, and one of a user that leaves.
abbrev between : List (ℕ × Packet ℕ)
between =
    (
      3,
      file_packet
          (open_record (record opened { header = record opened.header { file_id = 8 } }) ∷ []),
    )
    ∷ (4, file_packet (disconnect_record left ∷ []))
    ∷ []

handle_file_close-correlates_example :
    let c' = process_packets lib between (handle_file_open 2 (pos 9) opened server_9 collector) in
    handle_file_close lib 50 (pos 9) (bytes "s") closed server_9 c' ≡ (
      create_correlated_record lib 50
          (pos 9)
          (bytes "s")
          (open_state 2 (pos 9) opened server_9 collector)
          closed
          c',
      record c' { state_map = delete (build_file_key server_9 7) c'.state_map },
    )
unfolding is_full_for
handle_file_close-correlates_example =
    handle_file_close-correlates lib 2 50 (pos 9) (pos 9) (bytes "s") server_9 opened closed between
      collector refl ((inr (λ e. omega arith), tt), ((tt, tt), tt)) refl (omega arith)

one_packet :
    MapsValid
      (process_packet lib 1
        (file_packet (open_record opened ∷ close_record closed ∷ []))
        collector).1
one_packet =
    process_packet-MapsValid lib 1 (file_packet (open_record opened ∷ close_record closed ∷ []))
      collector collector-MapsValid

two_closes :
    length
      (process_records lib 1
        (pos 9)
        (bytes "s")
        server_9
        (open_record opened ∷ close_record closed ∷ close_record closed ∷ [])
        collector).0
    ≡ 2
two_closes =
    length-process_records lib 1 (pos 9) (bytes "s") server_9
      (open_record opened ∷ close_record closed ∷ close_record closed ∷ []) collector

abbrev alice : UserInfo
alice = record {
  protocol = bytes "xroot";
  username = bytes "alice";
  pid = pos 1;
  sid = pos 2;
  host = bytes "h";
}

abbrev login : UserRecord
login = record {
  header = header_9;
  dict_id = 5;
  user_info = alice;
  auth_info = empty_auth;
  token_info = empty_token;
}

abbrev token : UserRecord
token = record login { token_info = record empty_token { user_dict_id = 5; subject = bytes "sub" } }

-- The collector after the user packet, with both maps full.
abbrev known : Correlator
known = record collector {
  dict_map = record {
    entries =
        (
          build_dict_id_key server_9 5,
          record { key = build_dict_id_key server_9 5; value = user alice; expires_at = 101 },
        )
        ∷ [];
    ttl = 100;
    max_entries = 1;
  };
  user_map = record {
    entries =
        (
          build_user_info_key server_9 alice,
          record {
            key = build_user_info_key server_9 alice;
            value = minimal_user alice;
            expires_at = 101;
          },
        )
        ∷ [];
    ttl = 100;
    max_entries = 1;
  };
}

known-dict :
    (t : ℕ) → t ≤ 101 → get t (build_dict_id_key server_9 5) known.dict_map ≡ some (user alice)
unfolding get lookup
known-dict t h = ground (arith, eqb_refl (build_dict_id_key server_9 5))

known-user :
    (t : ℕ)
    → t ≤ 101
    → get t (build_user_info_key server_9 alice) known.user_map ≡ some (minimal_user alice)
unfolding get lookup
known-user t h = ground (arith, eqb_refl (build_user_info_key server_9 alice))

get_user_info-handle_user_record_example :
    get_user_info 50 5 7 server_9 (handle_user_record 1 login server_9 collector)
    ≡ some (user_state_of 1 login)
unfolding is_full_for
get_user_info-handle_user_record_example =
    get_user_info-handle_user_record 1 50 7 login server_9 collector refl (λ e. omega arith) refl
      refl (omega arith) (omega arith)

get_user_info-handle_token_at_input :
    get_user_info 50 5 7 server_9 (handle_user_record 3 token server_9 known)
    ≡ some (record (minimal_user alice) { token_info = token.token_info })
get_user_info-handle_token_at_input =
    get_user_info-handle_token 3 50 7 token server_9 alice (minimal_user alice) known
      (λ e. omega arith) (known-dict 3 (omega arith)) (known-dict 50 (omega arith))
      (known-user 3 (omega arith)) (omega arith)

get_user_info-handle_disconnect_at_input :
    (get_user_info 60 5 0 server_9 (handle_disconnect 50 left server_9 known) ≡ none)
    × (get 60
          (build_user_info_key server_9 alice)
          (handle_disconnect 50 left server_9 known).user_map
        ≡ none)
get_user_info-handle_disconnect_at_input =
    get_user_info-handle_disconnect 50 60 left server_9 alice known (known-dict 50 (omega arith))
