-- ===== src/Input/Lines.antt =====
-- input/input.go: the readLoop of FileReader. bufio.Scanner, json.Unmarshal and base64 are parameters;
-- the file may grow before each Scan.
pub mod Follows
pub mod Reads
use xrootd_monitoring_shovel.Base.{
  ℕ, ◌≡◌, Bool, true, false, List, [], ◌∷◌, Option, none, some, Bytes, if◌then◌else◌,
}
use xrootd_monitoring_shovel.Parser.Wire.{◌>>=◌}
use xrootd_monitoring_shovel.Input.Rabbit.{PacketWithAddr, Codec}
use xrootd_monitoring_shovel.Input.Source.{Source, returns, offer, receive, stop_source}

-- `scan` is Scan and Bytes, behind an addition to the file. As bufio says, it stops unrecoverably at
-- the end of the file, the first error, or a line that is too long.
pub record Scanner : Type 1 where
  pub S : Type 0
  pub scan : Bytes → S → Option Bytes × S
  pub has_error : S → Bool
  pub stops :
      (added more : Bytes) (s s' : S)
      → scan added s ≡ (none, s')
      → (s'' : S) × (scan more s' ≡ (none, s''))

-- A jsonLine is a RabbitMessage: the same three fields.
unfoldable pub packet_of_line : Codec → Bool → Bytes → Option PacketWithAddr
packet_of_line codec base64_encoded line = do
  j ← codec.unmarshal line
  b ← if base64_encoded then codec.decode j.encoded else some j.encoded
  some (record { content = b; remote_addr = j.remote })

-- A round of the loop, with what was added to the file before it and whether the select of its send
-- prefers the stop; a receive of the program; and Stop. A round whose select waits behind the end of
-- the file ends with the delay, or with the next round's check.
pub data LineEvent : Type 0 where
  round : Bytes → Bool → LineEvent
  line_received stop_reader : LineEvent

module _ (scanner : Scanner) (codec : Codec) (base64_encoded follow : Bool) where
  open scanner use {S, scan, has_error}

  pub record FileReader : Type 0 where
    pub source : Source PacketWithAddr
    pub scanned : S

  -- A malformed line is skipped.
  unfoldable pub offer_found : Bool → Option PacketWithAddr → FileReader → FileReader
  unfolding offer
  offer_found prefers_stop none r = r
  offer_found prefers_stop (some p) r = record r {
    source = offer PacketWithAddr prefers_stop p r.source;
  }

  unfoldable pub read_line : Bool → Bytes → FileReader → FileReader
  unfolding packet_of_line offer_found
  read_line prefers_stop line r =
      offer_found prefers_stop (packet_of_line codec base64_encoded line) r

  -- Scan has returned false.
  unfoldable pub at_end : FileReader → FileReader
  unfolding returns
  at_end r =
      if has_error r.scanned
      then record r { source = returns PacketWithAddr r.source }
      else if follow
      then r
      else record r { source = returns PacketWithAddr r.source }

  -- By what Scan found.
  unfoldable pub after_scan : Bool → Option Bytes × S → FileReader → FileReader
  unfolding read_line at_end
  after_scan prefers_stop (none, s) r = at_end (record r { scanned = s })
  after_scan prefers_stop (some line, s) r = read_line prefers_stop line (record r { scanned = s })

  -- Behind the check of stopChan.
  unfoldable pub scan_round : Bytes → Bool → FileReader → FileReader
  unfolding after_scan
  scan_round added prefers_stop r = after_scan prefers_stop (scan added r.scanned) r

  unfoldable pub on_line : LineEvent → FileReader → FileReader
  unfolding scan_round returns receive stop_source
  on_line (round added prefers_stop) r =
      if r.source.running
      then (if r.source.stopping
          then record r { source = returns PacketWithAddr r.source }
          else scan_round added prefers_stop r)
      else r
  on_line line_received r = record r { source = receive PacketWithAddr r.source }
  on_line stop_reader r = record r { source = stop_source PacketWithAddr r.source }

  unfoldable pub run_lines : List LineEvent → FileReader → FileReader
  unfolding on_line
  run_lines [] r = r
  run_lines (e ∷ es) r = run_lines es (on_line e r)
