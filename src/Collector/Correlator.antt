-- ===== src/Collector/Correlator.antt =====
-- `ProcessPacket` and the handlers of collector/correlator.go. The four maps are the state. A user
-- state is shared with nothing but its map, so an update through its pointer is an update of the
-- map's value. Handlers of one packet run at one time, `now`.
pub mod OpenClose
pub mod Frame
pub mod Users
pub mod Invariant
use xrootd_monitoring_shovel.Base.{
  ℕ, ◌≡◌, Bool, true, false, not, ◌&&◌, ◌||◌, List, [], ◌∷◌, ◌++◌, Option, none, some, Bytes, bytes,
  is_empty, cut, ℤ, pos, ◌==◌, if◌then◌else◌,
}
use xrootd_monitoring_shovel.Parser.Records.{
  Header, UserInfo, MapRecord, UserRecord, ServerInfo, FileHeader, FileTimeRecord, FileCloseRecord,
  FileOpenRecord, FileDisconnectRecord, FileRecord, time_record, close_record, open_record,
  disconnect_record,
}
use xrootd_monitoring_shovel.Parser.Info.{empty_auth, empty_token}
use xrootd_monitoring_shovel.Parser.Packet.{Packet}
use xrootd_monitoring_shovel.Collector.State.{get, set, delete}
use xrootd_monitoring_shovel.Collector.GoLib.{GoLib}
use xrootd_monitoring_shovel.Collector.UserInfo.{parse_user_info, parse_ea_info, EaInfo}
use xrootd_monitoring_shovel.Collector.Keys.{
  build_dict_key, build_dict_id_key, build_file_key, build_time_key, build_user_info_key,
  build_server_id,
}
use xrootd_monitoring_shovel.Collector.Types.{
  FileState, UserState, PathInfo, DictValue, raw, path_info, user, Correlator, CollectorRecord,
}
use xrootd_monitoring_shovel.Collector.Dictionary.{
  set_user, set_dict, update_user, handle_dict_id_record,
}
use xrootd_monitoring_shovel.Collector.Lookup.{minimal_user}
use xrootd_monitoring_shovel.Collector.Record.{create_correlated_record}

unfoldable pub set_state : ℕ → Bytes → FileState → Correlator → Correlator
set_state now k v c = record c { state_map = (set now k v c.state_map).1 }

-- The file's name, or the raw text stored under the file's id.
unfoldable pub open_filename : ℕ → FileOpenRecord → Bytes → Correlator → Bytes
open_filename now rec server_id c =
    if not (is_empty rec.lfn)
    then rec.lfn
    else if rec.header.file_id == 0
    then []
    else (elim (get now (build_dict_key server_id rec.header.file_id) c.dict_map) [
      | some (raw path) ↦ path
      | _ ↦ []
    ])

unfoldable pub open_state : ℕ → ℤ → FileOpenRecord → Bytes → Correlator → FileState
unfolding open_filename
open_state now server_start rec server_id c = record {
  file_id = rec.header.file_id;
  user_id = if rec.header.user_id == 0 then rec.user else rec.header.user_id;
  open_time = server_start;
  file_size = rec.file_size;
  filename = open_filename now rec server_id c;
  server_id = server_id;
  stream_id = pos 0;
  created_at = now;
}

unfoldable pub handle_file_open : ℕ → ℤ → FileOpenRecord → Bytes → Correlator → Correlator
handle_file_open now server_start rec server_id c =
    set_state now (build_file_key server_id rec.header.file_id)
      (open_state now server_start rec server_id c) c

-- The state from which a close without its open is reported.
unfoldable pub standalone_state : ℤ → FileCloseRecord → Bytes → FileState
standalone_state server_start rec server_id = record {
  file_id = rec.header.file_id;
  user_id = rec.header.user_id;
  open_time = server_start;
  file_size = pos 0;
  filename = bytes "unknown";
  server_id = server_id;
  stream_id = pos 0;
  created_at = 0;
}

module _ (lib : GoLib) where
  unfoldable pub handle_file_close :
      ℕ → ℤ → Bytes → FileCloseRecord → Bytes → Correlator → CollectorRecord × Correlator
  handle_file_close now server_start remote_addr rec server_id c =
      let key = build_file_key server_id rec.header.file_id in
      elim (get now key c.state_map) [
        | none ↦ (
          create_correlated_record lib now server_start remote_addr
              (standalone_state server_start rec (build_server_id server_start remote_addr)) rec c,
          c,
        )
        | some state ↦ (
          create_correlated_record lib now server_start remote_addr state rec c,
          record c { state_map = delete key c.state_map },
        )
      ]

unfoldable pub handle_time_record : ℕ → FileTimeRecord → Bytes → Correlator → Correlator
handle_time_record now rec server_id c =
    set_state now (build_time_key server_id rec.header.file_id rec.sid)
      (record {
        file_id = rec.header.file_id;
        user_id = rec.header.user_id;
        open_time = rec.t_beg;
        file_size = pos 0;
        filename = [];
        server_id = server_id;
        stream_id = rec.sid;
        created_at = now;
      })
      c

unfoldable pub handle_server_info : ℕ → ServerInfo → Bytes → Correlator → Correlator
handle_server_info now info server_id c = record c {
  server_map = (set now server_id info c.server_map).1;
}

-- A token for a user that is known.
unfoldable pub handle_token : ℕ → UserRecord → Bytes → Correlator → Correlator
handle_token now rec server_id c =
    elim (get now (build_dict_id_key server_id rec.token_info.user_dict_id) c.dict_map) [
      | some (user u) ↦ elim (get now (build_user_info_key server_id u) c.user_map) [
        | none ↦ c
        | some s ↦
            set_user now (build_user_info_key server_id u)
              (record s { token_info = rec.token_info }) c
      ]
      | _ ↦ c
    ]

unfoldable pub user_state_of : ℕ → UserRecord → UserState
user_state_of now rec = record (minimal_user rec.user_info) {
  user_id = rec.dict_id;
  auth_info = rec.auth_info;
  token_info = rec.token_info;
  created_at = now;
}

unfoldable pub handle_user_record : ℕ → UserRecord → Bytes → Correlator → Correlator
unfolding handle_token
handle_user_record now rec server_id c =
    if not (rec.token_info.user_dict_id == 0)
    then handle_token now rec server_id c
    else set_user now (build_user_info_key server_id rec.user_info) (user_state_of now rec)
        (set_dict now (build_dict_id_key server_id rec.dict_id) (user rec.user_info) c)

unfoldable pub handle_disconnect : ℕ → FileDisconnectRecord → Bytes → Correlator → Correlator
handle_disconnect now rec server_id c =
    let key = build_dict_id_key server_id rec.user_id in
    elim (get now key c.dict_map) [
      | some (user u) ↦ record c {
        dict_map = delete key c.dict_map;
        user_map = delete (build_user_info_key server_id u) c.user_map;
      }
      | _ ↦ c
    ]

module _ (lib : GoLib) where
  -- The loop over the file records; it makes no error, as the state map holds file states only.
  unfoldable pub process_records :
      ℕ → ℤ → Bytes → Bytes → List FileRecord → Correlator → List CollectorRecord × Correlator
  process_records now server_start remote_addr server_id [] c = ([], c)
  process_records now server_start remote_addr server_id (open_record r ∷ rs) c =
      process_records now server_start remote_addr server_id rs
        (handle_file_open now server_start r server_id c)
  process_records now server_start remote_addr server_id (close_record r ∷ rs) c =
      let (out, c') = handle_file_close lib now server_start remote_addr r server_id c in
      let (outs, last) = process_records now server_start remote_addr server_id rs c' in
      (out ∷ outs, last)
  process_records now server_start remote_addr server_id (time_record r ∷ rs) c =
      process_records now server_start remote_addr server_id rs
        (handle_time_record now r server_id c)
  process_records now server_start remote_addr server_id (disconnect_record r ∷ rs) c =
      process_records now server_start remote_addr server_id rs
        (handle_disconnect now r server_id c)

  unfoldable pub process_packet :
      {Event : Type 0} → ℕ → Packet Event → Correlator → List CollectorRecord × Correlator
  unfolding handle_server_info handle_dict_id_record handle_user_record process_records
  process_packet now packet c =
      let server_id = build_server_id packet.header.server_start packet.remote_addr in
      if packet.is_xml then ([], c) else (elim packet.server_info [
        | some info ↦ ([], handle_server_info now info server_id c)
        | none ↦ elim packet.map_record [
          | some m ↦ ([], handle_dict_id_record now m server_id packet.packet_type c)
          | none ↦ elim packet.user_record [
            | some u ↦ ([], handle_user_record now u server_id c)
            | none ↦
                process_records now packet.header.server_start packet.remote_addr server_id
                  packet.file_records c
          ]
        ]
      ])
