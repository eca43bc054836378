-- ===== src/Collector/Correlator/Users.antt =====
-- What is known of a user: after its user packet, after a token for it, and after its disconnect.
use xrootd_monitoring_shovel.Base.{
  ℕ, ◌+◌, ◌≤◌, ◌≡◌, ◌≢◌, false, none, some, Bytes, eqb_refl, arith, ◌∙◌,
}
use xrootd_monitoring_shovel.Parser.Records.{UserInfo, UserRecord, FileDisconnectRecord}
use xrootd_monitoring_shovel.Collector.State.{StateMap, get, set, delete, is_full_for}
use xrootd_monitoring_shovel.Collector.State.View.{get-set, get-delete}
use xrootd_monitoring_shovel.Collector.Keys.{build_dict_id_key, build_user_info_key}
use xrootd_monitoring_shovel.Collector.Types.{UserState, user, Correlator}
use xrootd_monitoring_shovel.Collector.Lookup.{get_user_info, find_user, user_of_id}
use xrootd_monitoring_shovel.Collector.Dictionary.{set_user, set_dict}
use xrootd_monitoring_shovel.Collector.Correlator.{
  handle_user_record, handle_token, handle_disconnect, user_state_of,
}

-- A value that is set with room for it is found until its time-to-live is over.
get-set_same :
    {V : Type 0} (t now : ℕ) (k : Bytes) (v : V) (sm : StateMap V)
    → is_full_for k sm ≡ false
    → t ≤ now + sm.ttl
    → get t k (set now k v sm).1 ≡ some v
unfolding set
get-set_same t now k v sm room le = get-set t now k k v sm ∙ ground (arith, eqb_refl k)

-- A key that is found is never refused.
found-is_full_for :
    {V : Type 0} (t : ℕ) (k : Bytes) (v : V) (sm : StateMap V)
    → get t k sm ≡ some v
    → is_full_for k sm ≡ false
unfolding get is_full_for
found-is_full_for t k v sm e = ground arith

get-delete_same : {V : Type 0} (t : ℕ) (k : Bytes) (sm : StateMap V) → get t k (delete k sm) ≡ none
get-delete_same t k sm = get-delete t k k sm ∙ rw (eqb_refl k)

-- The state of the user with an id, from its two entries.
get_user_info-found :
    (t id file_id : ℕ) (s : Bytes) (u : UserInfo) (st : UserState) (c : Correlator)
    → id ≢ 0
    → get t (build_dict_id_key s id) c.dict_map ≡ some (user u)
    → get t (build_user_info_key s u) c.user_map ≡ some st
    → get_user_info t id file_id s c ≡ some st
unfolding get_user_info find_user user_of_id
get_user_info-found t id file_id s u st c nz d e = ground arith

-- After a user packet without a token, with room in both maps, and until the times-to-live are over,
-- the user of its id has the information of the packet.
pub get_user_info-handle_user_record :
    (now t file_id : ℕ) (r : UserRecord) (s : Bytes) (c : Correlator)
    → r.token_info.user_dict_id ≡ 0
    → r.dict_id ≢ 0
    → is_full_for (build_dict_id_key s r.dict_id) c.dict_map ≡ false
    → is_full_for (build_user_info_key s r.user_info) c.user_map ≡ false
    → t ≤ now + c.dict_map.ttl
    → t ≤ now + c.user_map.ttl
    → get_user_info t r.dict_id file_id s (handle_user_record now r s c)
      ≡ some (user_state_of now r)
unfolding handle_user_record set_user set_dict
get_user_info-handle_user_record now t file_id r s c no_token nz room room' le le' =
    let d =
      get-set_same t now (build_dict_id_key s r.dict_id) (user r.user_info) c.dict_map room le in
    let e =
      get-set_same t now (build_user_info_key s r.user_info) (user_state_of now r) c.user_map room'
        le' in
    ground (
      arith,
      get_user_info-found t r.dict_id file_id s r.user_info (user_state_of now r)
          (handle_user_record now r s c) nz,
      d,
      e,
    )

-- A token for a user that is known, in maps with or without room, changes the user's token and
-- nothing else, while the entry of the user's id lives.
pub get_user_info-handle_token :
    (now t file_id : ℕ) (r : UserRecord) (s : Bytes) (u : UserInfo) (st : UserState)
    (c : Correlator)
    → r.token_info.user_dict_id ≢ 0
    → get now (build_dict_id_key s r.token_info.user_dict_id) c.dict_map ≡ some (user u)
    → get t (build_dict_id_key s r.token_info.user_dict_id) c.dict_map ≡ some (user u)
    → get now (build_user_info_key s u) c.user_map ≡ some st
    → t ≤ now + c.user_map.ttl
    → get_user_info t r.token_info.user_dict_id file_id s (handle_user_record now r s c)
      ≡ some (record st { token_info = r.token_info })
unfolding handle_user_record handle_token set_user
get_user_info-handle_token now t file_id r s u st c nz d d' e le =
    let key = build_user_info_key s u in
    let st' : UserState = record st { token_info = r.token_info } in
    let e' = get-set_same t now key st' c.user_map (found-is_full_for now key st c.user_map e) le in
    ground (
      arith,
      get_user_info-found t r.token_info.user_dict_id file_id s u st' (handle_user_record now r s c)
          nz,
      e',
    )

-- After the disconnect of a user that is known by its id, neither its id nor its user information
-- leads to anything.
pub get_user_info-handle_disconnect :
    (now t : ℕ) (r : FileDisconnectRecord) (s : Bytes) (u : UserInfo) (c : Correlator)
    → get now (build_dict_id_key s r.user_id) c.dict_map ≡ some (user u)
    → (get_user_info t r.user_id 0 s (handle_disconnect now r s c) ≡ none)
      × (get t (build_user_info_key s u) (handle_disconnect now r s c).user_map ≡ none)
unfolding handle_disconnect get_user_info find_user user_of_id
get_user_info-handle_disconnect now t r s u c d =
    let a = get-delete_same t (build_dict_id_key s r.user_id) c.dict_map in
    let b = get-delete_same t (build_user_info_key s u) c.user_map in ground (arith, a, b)
