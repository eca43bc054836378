-- ===== src/Collector/Dictionary.antt =====
-- `handleDictIDRecord` of collector/correlator.go: paths, applications and experiments of users.
use xrootd_monitoring_shovel.Base.{ℕ, Option, none, some, Bytes, cut, ◌==◌, if◌then◌else◌}
use xrootd_monitoring_shovel.Parser.Records.{UserInfo, MapRecord}
use xrootd_monitoring_shovel.Collector.State.{get, set}
use xrootd_monitoring_shovel.Collector.UserInfo.{parse_user_info, parse_ea_info}
use xrootd_monitoring_shovel.Collector.Keys.{build_dict_key, build_dict_id_key, build_user_info_key}
use xrootd_monitoring_shovel.Collector.Types.{
  UserState, DictValue, raw, path_info, user, Correlator,
}
use xrootd_monitoring_shovel.Collector.Lookup.{minimal_user}

unfoldable pub set_user : ℕ → Bytes → UserState → Correlator → Correlator
set_user now k v c = record c { user_map = (set now k v c.user_map).1 }

unfoldable pub set_dict : ℕ → Bytes → DictValue → Correlator → Correlator
set_dict now k v c = record c { dict_map = (set now k v c.dict_map).1 }

-- The state of a user, changed if it is there and otherwise made from what is known.
unfoldable pub update_user :
    ℕ → Bytes → UserInfo → ℕ → (UserState → UserState) → Correlator → Correlator
update_user now server_id u user_id change c =
    let key = build_user_info_key server_id u in
    elim (get now key c.user_map) [
      | some s ↦ set_user now key (change s) c
      | none ↦
          set_user now key
            (change (record (minimal_user u) { user_id = user_id; created_at = now })) c
    ]

-- 'd': the path, if there is a second line, and the user.
unfoldable pub handle_path :
    ℕ → MapRecord → Bytes → UserInfo → Option Bytes → Correlator → Correlator
handle_path now rec server_id u rest c =
    set_dict now (build_dict_id_key server_id rec.dict_id) (user u) (elim rest [
      | none ↦ c
      | some path ↦
          set_dict now (build_dict_key server_id rec.dict_id)
            (path_info (record { path = path; user_info = u })) c
    ])

-- 'i': the application's information.
unfoldable pub handle_app_info :
    ℕ → MapRecord → Bytes → UserInfo → Option Bytes → Correlator → Correlator
unfolding update_user
handle_app_info now rec server_id u none c = c
handle_app_info now rec server_id u (some app_info) c =
    update_user now server_id u rec.dict_id (λ s. record s { app_info = app_info })
      (set_dict now (build_dict_id_key server_id rec.dict_id) (user u) c)

-- 'U': the ids of experiment and activity, for the user that the id in the text names.
unfoldable pub handle_ea_info : ℕ → Bytes → UserInfo → Option Bytes → Correlator → Correlator
unfolding update_user
handle_ea_info now server_id u none c = c
handle_ea_info now server_id u (some text) c =
    let ea = parse_ea_info text in
    let key = build_dict_id_key server_id ea.udid in
    let change : UserState → UserState =
      λ s. record s { experiment_id = ea.experiment_id; activity_id = ea.activity_id } in
    if ea.udid == 0 then c else (elim (get now key c.dict_map) [
      | none ↦ update_user now server_id u ea.udid change (set_dict now key (user u) c)
      | some (user known) ↦ update_user now server_id known ea.udid change c
      | _ ↦ c
    ])

-- The first line, and the rest if there is a newline.
abbrev lines_of : Bytes → Bytes × Option Bytes
lines_of info = elim (cut b'\n' info) [ none ↦ (info, none) | some (a, b) ↦ (a, some b) ]

-- Any record whose first line is no user information is stored as a raw text.
unfoldable pub handle_dict_id_record : ℕ → MapRecord → Bytes → ℕ → Correlator → Correlator
unfolding handle_path handle_app_info handle_ea_info
handle_dict_id_record now rec server_id packet_type c =
    elim (parse_user_info (lines_of rec.info).0) [
      | none ↦ set_dict now (build_dict_key server_id rec.dict_id) (raw rec.info) c
      | some u ↦
          if packet_type == b'd'
          then handle_path now rec server_id u (lines_of rec.info).1 c
          else if packet_type == b'i'
          then handle_app_info now rec server_id u (lines_of rec.info).1 c
          else if packet_type == b'U'
          then handle_ea_info now server_id u (lines_of rec.info).1 c
          else c
    ]
