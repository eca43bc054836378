-- ===== src/Input/Lines/Reads.antt =====
-- What FileReader sends of the lines of a file.
use xrootd_monitoring_shovel.Base.{
  ◌≡◌, refl, sym, ap, ◌∙◌, Bool, true, false, List, [], ◌∷◌, ◌++◌, map, append_assoc, append-nil,
  Option, none, some, Bytes, decimal, arith,
}
use xrootd_monitoring_shovel.Packaging.{UdpAddr, Encoders, IpMapping, map_ip, package_udp}
use xrootd_monitoring_shovel.Input.Rabbit.{PacketWithAddr, Codec}
use xrootd_monitoring_shovel.Input.Rabbit.Envelope.{AgreeWith}
use xrootd_monitoring_shovel.Input.Source.{receive, returns, offer}
use xrootd_monitoring_shovel.Input.Lines.{
  Scanner, LineEvent, round, line_received, FileReader, packet_of_line, offer_found, read_line,
  at_end, after_scan, scan_round, on_line, run_lines,
}

-- The file has these lines.
abbrev pub Yields : (scanner : Scanner) → List Bytes → scanner.S → Type 0
Yields scanner [] s = (s' : scanner.S) × (scanner.scan [] s ≡ (none, s'))
Yields scanner (l ∷ ls) s =
    (s' : scanner.S) × (scanner.scan [] s ≡ (some l, s')) × Yields scanner ls s'

-- A round for each line, whose packet the program receives before the next, and one for the end.
abbrev pub rounds : List Bytes → List LineEvent
rounds [] = round [] false ∷ []
rounds (l ∷ ls) = round [] false ∷ line_received ∷ rounds ls

-- A datagram and its sender.
abbrev pub Sent : Type 0
Sent = Bytes × UdpAddr

module _ (scanner : Scanner) (codec : Codec) (follow : Bool) where
  open scanner use {S}

  abbrev Reader : Type 0
  Reader = FileReader scanner codec true follow

  -- A reader behind n lines: the packets are received, and the channel is empty.
  abbrev pub reader_at : List PacketWithAddr → S → Reader
  reader_at ps s = record {
    source = record { buffered = []; received = ps; stopping = false; running = true };
    scanned = s;
  }

  module _ (enc : Encoders) (agree : AgreeWith codec enc) (version : Bytes)
      (config : IpMapping) where
    abbrev pub line_of : Sent → Bytes
    line_of (packet, sender) = package_udp enc packet sender version config

    abbrev pub read_of : Sent → PacketWithAddr
    read_of (packet, sender) = record {
      content = packet;
      remote_addr = enc.join_host_port (map_ip sender config) (decimal sender.port);
    }

    packet_of_line-line_of : (d : Sent) → packet_of_line codec true (line_of d) ≡ some (read_of d)
    unfolding packet_of_line package_udp
    packet_of_line-line_of (packet, sender) = rw (agree.unmarshal-marshal, agree.decode-encode) refl

    line_round :
        (d : Sent) (ps : List PacketWithAddr) (s s' : S)
        → scanner.scan [] s ≡ (some (line_of d), s')
        → on_line scanner codec true follow line_received
            (on_line scanner codec true follow (round [] false) (reader_at ps s))
          ≡ reader_at (ps ++ read_of d ∷ []) s'
    unfolding on_line scan_round after_scan read_line offer_found offer receive
    line_round d ps s s' e =
        ap
          (λ (t : Option Bytes × S).
            on_line scanner codec true follow line_received
              (after_scan scanner codec true follow false t (reader_at ps s)))
          e
        ∙ ap
            (λ (t : Option PacketWithAddr). on_line scanner codec true follow line_received (
              offer_found scanner codec true follow false t
                (record (reader_at ps s) { scanned = s' })))
            (packet_of_line-line_of d)

    end_round :
        (ps : List PacketWithAddr) (s s' : S)
        → scanner.scan [] s ≡ (none, s')
        → (on_line scanner codec true follow (round [] false) (reader_at ps s)).source.received ≡ ps
    unfolding on_line scan_round after_scan at_end returns
    end_round ps s s' e =
        ap
          (λ (t : Option Bytes × S).
            (after_scan scanner codec true follow false t (reader_at ps s)).source.received)
          e
        ∙ ground arith

    received-run_lines :
        (ds : List Sent) (ps : List PacketWithAddr) (s : S)
        → Yields scanner (map line_of ds) s
        → (run_lines scanner codec true follow
            (rounds (map line_of ds))
            (reader_at ps s)).source.received
          ≡ ps ++ map read_of ds
    unfolding run_lines
    received-run_lines [] ps s (s', e) = end_round ps s s' e ∙ sym (append-nil ps)
    received-run_lines (d ∷ ds) ps s (s', e, more) =
        ap
          (λ (t : Reader).
            (run_lines scanner codec true follow (rounds (map line_of ds)) t).source.received)
          (line_round d ps s s' e)
        ∙ received-run_lines ds (ps ++ read_of d ∷ []) s' more
        ∙ append_assoc ps (read_of d ∷ []) (map read_of ds)

    -- From a file whose lines are datagrams as a shoveler packages them, a reader with base64 on
    -- hands over each datagram with its sender's mapped address, in order, if the program receives
    -- each packet before the next line.
    pub run_lines-package_udp :
        (ds : List Sent) (s : S)
        → Yields scanner (map line_of ds) s
        → (run_lines scanner codec true follow
            (rounds (map line_of ds))
            (reader_at [] s)).source.received
          ≡ map read_of ds
    run_lines-package_udp ds s y = received-run_lines ds [] s y
