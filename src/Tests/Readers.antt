-- ===== src/Tests/Readers.antt =====
-- Sessions, the readers of package input, and the config, at concrete inputs.
use mathlib.Core.List.{Sublist}
use xrootd_monitoring_shovel.Base.{
  ◌≤◌, ◌≡◌, ◌↔◌, refl, true, false, List, [], ◌∷◌, map, Option, none, some, Bytes, bytes, length,
  eqb, decimal, lookup, arith, if◌then◌else◌,
}
use xrootd_monitoring_shovel.Packaging.{map_ip}
use xrootd_monitoring_shovel.Publisher.Session.{
  Session, serving, new_session, connects, inits, done, Event, wakes, closes, run_session, on_event,
  wake_in, close_session, after_init, after_connect,
}
use xrootd_monitoring_shovel.Publisher.Session.Reconnects.{ClosedReady, run_session-ended}
use xrootd_monitoring_shovel.Publisher.Stomp.{StompEvent, hour, dequeued}
use xrootd_monitoring_shovel.Input.Rabbit.{PacketWithAddr}
use xrootd_monitoring_shovel.Input.Source.{new_source, packets_capacity}
use xrootd_monitoring_shovel.Input.Source.Kept.{kept}
use xrootd_monitoring_shovel.Input.Udp.{UdpEvent, datagram, program_receives, stop_called, run_udp}
use xrootd_monitoring_shovel.Input.Udp.Arrivals.{arrivals, run_udp-arrivals}
use xrootd_monitoring_shovel.Input.Lines.{Scanner, round, FileReader, run_lines}
use xrootd_monitoring_shovel.Input.Lines.Follows.{run_lines-end}
use xrootd_monitoring_shovel.Input.Lines.Reads.{
  Sent, line_of, reader_at, rounds, run_lines-package_udp,
}
use xrootd_monitoring_shovel.Config.{Settings, Config, ok, read_config}
use xrootd_monitoring_shovel.Config.Usable.{IsReadable, read_config_iff}
use xrootd_monitoring_shovel.Collector.Filter.{matches_wlcg, matches_wlcg_with_rules}
use xrootd_monitoring_shovel.Collector.Setup.{new_correlator_with_config}
use xrootd_monitoring_shovel.Config.{config_with, amqp, read_amqp, read_broker, after_broker}
use xrootd_monitoring_shovel.Service.Setup.{build_correlator_config, matches_wlcg-settings}
use xrootd_monitoring_shovel.Tests.Outputs.{stored}
use xrootd_monitoring_shovel.Tests.States.{lib, collector}
use xrootd_monitoring_shovel.Tests.Inputs.{framed, unframed, framed_agree, mapping}

abbrev serving_session : Session
serving_session = record {
  phase = serving;
  is_ready = true;
  done_closed = false;
  connection_open = true;
  channel_open = true;
}

abbrev session_events : List Event
session_events = wakes (connects true) ∷ wakes (inits true) ∷ closes true true ∷ wakes done ∷ []

run_session-ended_example : ClosedReady session_events new_session
unfolding run_session on_event wake_in close_session after_init after_connect
run_session-ended_example = run_session-ended session_events refl

abbrev stomp_events : List StompEvent
stomp_events = dequeued (bytes "a") ∷ hour ∷ dequeued (bytes "b") ∷ []

-- Lines behind one another; after the last, nothing more is found.
abbrev next_line : List Bytes → Option Bytes × List Bytes
next_line [] = (none, [])
next_line (l ∷ ls) = (some l, ls)

next_line-stops :
    (added more : Bytes) (s s' : List Bytes)
    → next_line s ≡ (none, s')
    → (s'' : List Bytes) × (next_line s' ≡ (none, s''))
next_line-stops added more [] s' e = ([], ground arith)
next_line-stops added more (l ∷ ls) s' e = cc

abbrev lines : Scanner
lines = record {
  S = List Bytes;
  scan = λ _ s. next_line s;
  has_error = λ _. false;
  stops = next_line-stops;
}

abbrev at_the_end : FileReader lines unframed true true
at_the_end = record {
  source = record { buffered = []; received = []; stopping = false; running = true };
  scanned = [];
}

run_lines-end_example :
    kept PacketWithAddr
      (run_lines lines unframed true true
        (round [] false ∷ round (bytes "x") false ∷ [])
        at_the_end).source
    ≡ []
run_lines-end_example =
    run_lines-end lines unframed true true at_the_end [] [] false (round (bytes "x") false ∷ [])
      refl refl refl

abbrev sent_datagrams : List Sent
sent_datagrams = (1 ∷ 2 ∷ [], record { ip = bytes "10.0.0.1"; port = 9930 }) ∷ []

run_lines-package_udp_example :
    (run_lines lines unframed true false
      (rounds (
        map
          (line_of lines unframed false framed framed_agree (bytes "1.0") mapping)
          sent_datagrams))
      (reader_at lines unframed false [] (
        map
          (line_of lines unframed false framed framed_agree (bytes "1.0") mapping)
          sent_datagrams))).source.received
    ≡ record { content = 1 ∷ 2 ∷ []; remote_addr = bytes "192.0.2.1:9930" } ∷ []
unfolding map_ip lookup eqb decimal
run_lines-package_udp_example =
    run_lines-package_udp lines unframed false framed framed_agree (bytes "1.0") mapping
      sent_datagrams _ ([], refl, ([], refl))

abbrev udp_events : List UdpEvent
udp_events =
    datagram (1 ∷ []) none false ∷ program_receives ∷ stop_called ∷ datagram (2 ∷ []) none true ∷ []

run_udp-arrivals_example :
    Sublist
      (kept PacketWithAddr (run_udp udp_events (new_source PacketWithAddr)))
      (arrivals udp_events)
    × (length (run_udp udp_events (new_source PacketWithAddr)).buffered ≤ packets_capacity)
run_udp-arrivals_example = run_udp-arrivals udp_events

abbrev unset : Settings
unset = record {
  string_at = λ _. none;
  int_at = λ _. none;
  bool_at = λ _. none;
  strings_at = λ _. none;
  map_at = λ _. [];
}

-- With no setting at all, the AMQP URL is the empty text.
read_config_iff_example :
    ((c : Config Bytes) × (read_config (λ b. some b) unset (bytes "COLLECTOR") ≡ ok c))
    ↔ IsReadable (λ b. some b) unset
read_config_iff_example = read_config_iff (λ b. some b) unset (bytes "COLLECTOR")

-- A collector whose settings have an empty list of VOs.
abbrev no_vos : Settings
no_vos = record unset { strings_at = λ key. if eqb key (bytes "wlcg.vos") then some none else none }

abbrev configured : Config Bytes
configured = config_with (λ b. some b) no_vos (bytes "COLLECTOR") (amqp (read_amqp no_vos []))

matches_wlcg-settings_example :
    matches_wlcg lib
      (new_correlator_with_config collector.scitags
        (build_correlator_config configured collector.scitags)).output.filter
      stored
    ≡ matches_wlcg_with_rules lib stored [] (bytes "/store" ∷ bytes "/user/dteam" ∷ [])
unfolding read_config after_broker read_broker eqb
matches_wlcg-settings_example =
    matches_wlcg-settings (λ b. some b) no_vos lib (bytes "COLLECTOR") configured collector.scitags
      collector.scitags stored refl
