-- ===== src/Collector/Correlator/OpenClose.antt =====
-- A close is correlated with the open of its file, whatever comes between them for other files.
use xrootd_monitoring_shovel.Base.{
  ℕ, ◌+◌, ◌≤◌, ◌≡◌, ◌∙◌, false, List, some, Bytes, eqb_refl, ℤ, arith,
}
use xrootd_monitoring_shovel.Parser.Records.{FileCloseRecord, FileOpenRecord}
use xrootd_monitoring_shovel.Parser.Packet.{Packet}
use xrootd_monitoring_shovel.Collector.GoLib.{GoLib}
use xrootd_monitoring_shovel.Collector.State.{set, delete, is_full_for}
use xrootd_monitoring_shovel.Collector.State.View.{get-set}
use xrootd_monitoring_shovel.Collector.Keys.{build_file_key}
use xrootd_monitoring_shovel.Collector.Types.{Correlator}
use xrootd_monitoring_shovel.Collector.Record.{create_correlated_record}
use xrootd_monitoring_shovel.Collector.Correlator.{
  open_state, handle_file_open, handle_file_close, set_state,
}
use xrootd_monitoring_shovel.Collector.Correlator.Frame.{
  open_file, PacketsSpare, process_packets, seen-process_packets,
}

seen-open :
    (now t : ℕ) (start : ℤ) (s : Bytes) (r : FileOpenRecord) (c : Correlator)
    → is_full_for (build_file_key s r.header.file_id) c.state_map ≡ false
    → t ≤ now + c.state_map.ttl
    → open_file t s r.header.file_id (handle_file_open now start r s c)
      ≡ some (open_state now start r s c)
unfolding handle_file_open set_state set
seen-open now t start s r c room le =
    let key = build_file_key s r.header.file_id in
    get-set t now key key (open_state now start r s c) c.state_map ∙ ground (arith, eqb_refl key)

-- A file is opened, with room for its state; then packets come, in any number and of any kind, none
-- with an open or close of that file of that server; then the file is closed, before the state's
-- time-to-live is over. The record of the close is made from the state of the open and the counters
-- of the close, and the state is removed.
pub handle_file_close-correlates :
    {Event : Type 0} (lib : GoLib) (now t : ℕ) (start start' : ℤ) (addr s : Bytes)
    (r : FileOpenRecord) (x : FileCloseRecord) (ps : List (ℕ × Packet Event)) (c : Correlator)
    → is_full_for (build_file_key s r.header.file_id) c.state_map ≡ false
    → PacketsSpare s r.header.file_id ps
    → x.header.file_id ≡ r.header.file_id
    → t ≤ now + c.state_map.ttl
    → let c' = process_packets lib ps (handle_file_open now start r s c) in
      handle_file_close lib t start' addr x s c' ≡ (
        create_correlated_record lib t start' addr (open_state now start r s c) x c',
        record c' { state_map = delete (build_file_key s r.header.file_id) c'.state_map },
      )
unfolding handle_file_close handle_file_open set_state set
handle_file_close-correlates lib now t start start' addr s r x ps c room spare same le = ground (
  arith,
  seen-process_packets lib t s r.header.file_id ps (handle_file_open now start r s c) spare
      ∙ seen-open now t start s r c room le,
)
