-- ===== src/Collector/Correlator/Invariant.antt =====
-- Every packet keeps the four maps valid: within their maximum, every key once.
use xrootd_monitoring_shovel.Base.{
  ℕ, ◌≡◌, List, [], ◌∷◌, Option, none, some, Bytes, ℤ, arith, length, refl, ap, suc,
}
use xrootd_monitoring_shovel.Parser.Records.{
  UserInfo, MapRecord, UserRecord, ServerInfo, FileCloseRecord, FileDisconnectRecord, FileRecord,
  time_record, close_record, open_record, disconnect_record,
}
use xrootd_monitoring_shovel.Parser.Packet.{Packet}
use xrootd_monitoring_shovel.Collector.GoLib.{GoLib}
use xrootd_monitoring_shovel.Collector.State.{delete}
use xrootd_monitoring_shovel.Collector.State.Invariant.{IsValid, set-IsValid, delete-IsValid}
use xrootd_monitoring_shovel.Collector.Types.{FileState, UserState, DictValue, Correlator}
use xrootd_monitoring_shovel.Collector.Dictionary.{
  handle_dict_id_record, update_user, handle_path, handle_app_info, handle_ea_info, set_user,
  set_dict,
}
use xrootd_monitoring_shovel.Collector.Correlator.{
  handle_file_open, handle_file_close, handle_time_record, handle_disconnect, handle_user_record,
  handle_server_info, handle_token, process_records, process_packet, set_state,
}

pub record MapsValid (c : Correlator) : Type 0 where
  pub states : IsValid c.state_map
  pub users : IsValid c.user_map
  pub dicts : IsValid c.dict_map
  pub servers : IsValid c.server_map

set_state-MapsValid :
    (now : ℕ) (k : Bytes) (v : FileState) (c : Correlator)
    → MapsValid c
    → MapsValid (set_state now k v c)
unfolding set_state
set_state-MapsValid now k v c h = record {
  states = set-IsValid now k v c.state_map h.states;
  users = h.users;
  dicts = h.dicts;
  servers = h.servers;
}

set_user-MapsValid :
    (now : ℕ) (k : Bytes) (v : UserState) (c : Correlator)
    → MapsValid c
    → MapsValid (set_user now k v c)
unfolding set_user
set_user-MapsValid now k v c h = record {
  states = h.states;
  users = set-IsValid now k v c.user_map h.users;
  dicts = h.dicts;
  servers = h.servers;
}

set_dict-MapsValid :
    (now : ℕ) (k : Bytes) (v : DictValue) (c : Correlator)
    → MapsValid c
    → MapsValid (set_dict now k v c)
unfolding set_dict
set_dict-MapsValid now k v c h = record {
  states = h.states;
  users = h.users;
  dicts = set-IsValid now k v c.dict_map h.dicts;
  servers = h.servers;
}

delete_state-MapsValid :
    (k : Bytes) (c : Correlator)
    → MapsValid c
    → MapsValid (record c { state_map = delete k c.state_map })
delete_state-MapsValid k c h = record {
  states = delete-IsValid k c.state_map h.states;
  users = h.users;
  dicts = h.dicts;
  servers = h.servers;
}

delete_user-MapsValid :
    (k k' : Bytes) (c : Correlator)
    → MapsValid c
    → MapsValid (record c { dict_map = delete k c.dict_map; user_map = delete k' c.user_map })
delete_user-MapsValid k k' c h = record {
  states = h.states;
  users = delete-IsValid k' c.user_map h.users;
  dicts = delete-IsValid k c.dict_map h.dicts;
  servers = h.servers;
}

update_user-MapsValid :
    (now : ℕ) (s : Bytes) (u : UserInfo) (id : ℕ) (change : UserState → UserState) (c : Correlator)
    → MapsValid c
    → MapsValid (update_user now s u id change c)
unfolding update_user
update_user-MapsValid now s u id change c h = grind (arith, set_user-MapsValid now)

handle_user_record-MapsValid :
    (now : ℕ) (r : UserRecord) (s : Bytes) (c : Correlator)
    → MapsValid c
    → MapsValid (handle_user_record now r s c)
unfolding handle_user_record handle_token
handle_user_record-MapsValid now r s c h =
    grind (arith, set_user-MapsValid now, set_dict-MapsValid now)

handle_path-MapsValid :
    (now : ℕ) (r : MapRecord) (s : Bytes) (u : UserInfo) (rest : Option Bytes) (c : Correlator)
    → MapsValid c
    → MapsValid (handle_path now r s u rest c)
unfolding handle_path
handle_path-MapsValid now r s u none c h = set_dict-MapsValid now _ _ c h
handle_path-MapsValid now r s u (some path) c h =
    set_dict-MapsValid now _ _ _ (set_dict-MapsValid now _ _ c h)

handle_app_info-MapsValid :
    (now : ℕ) (r : MapRecord) (s : Bytes) (u : UserInfo) (rest : Option Bytes) (c : Correlator)
    → MapsValid c
    → MapsValid (handle_app_info now r s u rest c)
unfolding handle_app_info
handle_app_info-MapsValid now r s u none c h = h
handle_app_info-MapsValid now r s u (some info) c h =
    grind (arith, update_user-MapsValid now s u, set_dict-MapsValid now)

handle_ea_info-MapsValid :
    (now : ℕ) (s : Bytes) (u : UserInfo) (rest : Option Bytes) (c : Correlator)
    → MapsValid c
    → MapsValid (handle_ea_info now s u rest c)
unfolding handle_ea_info
handle_ea_info-MapsValid now s u none c h = h
handle_ea_info-MapsValid now s u (some text) c h =
    grind (arith, update_user-MapsValid now s, set_dict-MapsValid now)

handle_dict_id_record-MapsValid :
    (now : ℕ) (r : MapRecord) (s : Bytes) (ty : ℕ) (c : Correlator)
    → MapsValid c
    → MapsValid (handle_dict_id_record now r s ty c)
unfolding handle_dict_id_record
handle_dict_id_record-MapsValid now r s ty c h = grind (
  arith,
  set_dict-MapsValid now,
  handle_path-MapsValid now r s,
  handle_app_info-MapsValid now r s,
  handle_ea_info-MapsValid now s,
)

handle_disconnect-MapsValid :
    (now : ℕ) (r : FileDisconnectRecord) (s : Bytes) (c : Correlator)
    → MapsValid c
    → MapsValid (handle_disconnect now r s c)
unfolding handle_disconnect
handle_disconnect-MapsValid now r s c h = grind (arith, delete_user-MapsValid)

handle_server_info-MapsValid :
    (now : ℕ) (i : ServerInfo) (s : Bytes) (c : Correlator)
    → MapsValid c
    → MapsValid (handle_server_info now i s c)
unfolding handle_server_info
handle_server_info-MapsValid now i s c h = record {
  states = h.states;
  users = h.users;
  dicts = h.dicts;
  servers = set-IsValid now s i c.server_map h.servers;
}

-- The number of the records that make an output.
abbrev pub closes : List FileRecord → ℕ
closes [] = 0
closes (open_record r ∷ rs) = closes rs
closes (close_record r ∷ rs) = suc (closes rs)
closes (time_record r ∷ rs) = closes rs
closes (disconnect_record r ∷ rs) = closes rs

module _ (lib : GoLib) where
  handle_file_close-MapsValid :
      (now : ℕ) (start : ℤ) (addr : Bytes) (r : FileCloseRecord) (s : Bytes) (c : Correlator)
      → MapsValid c
      → MapsValid (handle_file_close lib now start addr r s c).1
  unfolding handle_file_close
  handle_file_close-MapsValid now start addr r s c h = grind (arith, delete_state-MapsValid)

  process_records-MapsValid :
      (now : ℕ) (start : ℤ) (addr s : Bytes) (rs : List FileRecord) (c : Correlator)
      → MapsValid c
      → MapsValid (process_records lib now start addr s rs c).1
  unfolding process_records handle_file_open handle_time_record
  process_records-MapsValid now start addr s [] c h = h
  process_records-MapsValid now start addr s (open_record r ∷ rs) c h =
      process_records-MapsValid now start addr s rs _ (set_state-MapsValid now _ _ c h)
  process_records-MapsValid now start addr s (close_record r ∷ rs) c h =
      process_records-MapsValid now start addr s rs _
        (handle_file_close-MapsValid now start addr r s c h)
  process_records-MapsValid now start addr s (time_record r ∷ rs) c h =
      process_records-MapsValid now start addr s rs _ (set_state-MapsValid now _ _ c h)
  process_records-MapsValid now start addr s (disconnect_record r ∷ rs) c h =
      process_records-MapsValid now start addr s rs _ (handle_disconnect-MapsValid now r s c h)

  -- The loop over file records makes one output record for each close among them, matched or not.
  pub length-process_records :
      (now : ℕ) (start : ℤ) (addr s : Bytes) (rs : List FileRecord) (c : Correlator)
      → length (process_records lib now start addr s rs c).0 ≡ closes rs
  unfolding process_records
  length-process_records now start addr s [] c = refl
  length-process_records now start addr s (open_record r ∷ rs) c =
      length-process_records now start addr s rs _
  length-process_records now start addr s (close_record r ∷ rs) c =
      ap suc (length-process_records now start addr s rs _)
  length-process_records now start addr s (time_record r ∷ rs) c =
      length-process_records now start addr s rs _
  length-process_records now start addr s (disconnect_record r ∷ rs) c =
      length-process_records now start addr s rs _

  -- A packet of any kind, at any time, keeps the correlator's maps valid.
  pub process_packet-MapsValid :
      {Event : Type 0} (now : ℕ) (p : Packet Event) (c : Correlator)
      → MapsValid c
      → MapsValid (process_packet lib now p c).1
  unfolding process_packet
  process_packet-MapsValid now p c h = grind (
    arith,
    handle_server_info-MapsValid now,
    handle_dict_id_record-MapsValid now,
    handle_user_record-MapsValid now,
    process_records-MapsValid now,
  )
