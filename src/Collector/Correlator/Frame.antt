-- ===== src/Collector/Correlator/Frame.antt =====
-- What a file's state outlives: the records for other files, and the packets of other kinds.
use xrootd_monitoring_shovel.Base.{
  ℕ, ◌≡◌, ◌≢◌, ◌⊎◌, inl, inr, refl, sym, ap, ◌∙◌, false, List, [], ◌∷◌, Option, none, some, Bytes,
  eqb, eqb_iff, ℤ, arith, Bool-cases, Option-cases,
}
use xrootd_monitoring_shovel.Parser.Records.{
  UserInfo, MapRecord, UserRecord, FileTimeRecord, FileCloseRecord, FileOpenRecord,
  FileDisconnectRecord, FileRecord, time_record, close_record, open_record, disconnect_record,
}
use xrootd_monitoring_shovel.Parser.Packet.{Packet}
use xrootd_monitoring_shovel.Collector.GoLib.{GoLib}
use xrootd_monitoring_shovel.Collector.State.{StateMap, get, set, delete}
use xrootd_monitoring_shovel.Collector.State.View.{get-set, get-delete}
use xrootd_monitoring_shovel.Collector.Keys.{build_file_key, build_server_id}
use xrootd_monitoring_shovel.Collector.Keys.Injective.{
  file, build_key_injective, build_file_key-ne-build_time_key,
}
use xrootd_monitoring_shovel.Collector.Types.{FileState, UserState, Correlator}
use xrootd_monitoring_shovel.Collector.Dictionary.{
  handle_dict_id_record, update_user, handle_path, handle_app_info, handle_ea_info, set_user,
  set_dict,
}
use xrootd_monitoring_shovel.Collector.Correlator.{
  handle_file_open, handle_file_close, handle_time_record, handle_disconnect, handle_user_record,
  handle_server_info, handle_token, process_records, process_packet, set_state,
}

-- The state that a close of the file finds at time t.
abbrev pub open_file : ℕ → Bytes → ℕ → Correlator → Option FileState
open_file t server_id file_id c = get t (build_file_key server_id file_id) c.state_map

eqb-ne : (a b : Bytes) → a ≢ b → eqb a b ≡ false
eqb-ne a b h = ground (arith, eqb_iff a b)

get-set_ne :
    {V : Type 0} (t now : ℕ) (j k : Bytes) (v : V) (sm : StateMap V)
    → k ≢ j
    → get t j (set now k v sm).1 ≡ get t j sm
get-set_ne t now j k v sm h = get-set t now j k v sm ∙ rw (eqb-ne k j h) (ground arith)

-- Records that neither open nor close the file `f` of server `s`, when they come from server `s'`.
abbrev pub Spares : Bytes → ℕ → Bytes → FileRecord → Type 0
Spares s f s' (open_record r) = (s' ≢ s) ⊎ (r.header.file_id ≢ f)
Spares s f s' (close_record r) = (s' ≢ s) ⊎ (r.header.file_id ≢ f)
Spares s f s' (time_record r) = Unit
Spares s f s' (disconnect_record r) = Unit

abbrev pub AllSpare : Bytes → ℕ → Bytes → List FileRecord → Type 0
AllSpare s f s' [] = Unit
AllSpare s f s' (r ∷ rs) = Spares s f s' r × AllSpare s f s' rs

build_file_key-ne :
    (s s' : Bytes) (f f' : ℕ) → (s' ≢ s) ⊎ (f' ≢ f) → build_file_key s' f' ≢ build_file_key s f
build_file_key-ne s s' f f' (inl h) e = h (build_key_injective file file s' s f' f e).1
build_file_key-ne s s' f f' (inr h) e = h (build_key_injective file file s' s f' f e).2

-- The records of the other kinds change the other maps only.
state_map-handle_user_record :
    (now : ℕ) (r : UserRecord) (s' : Bytes) (c : Correlator)
    → (handle_user_record now r s' c).state_map ≡ c.state_map
unfolding handle_user_record handle_token set_user set_dict
state_map-handle_user_record now r s' c = ground arith

state_map-update_user :
    (now : ℕ) (s' : Bytes) (u : UserInfo) (id : ℕ) (change : UserState → UserState) (c : Correlator)
    → (update_user now s' u id change c).state_map ≡ c.state_map
unfolding update_user set_user
state_map-update_user now s' u id change c = ground arith

state_map-handle_path :
    (now : ℕ) (r : MapRecord) (s' : Bytes) (u : UserInfo) (rest : Option Bytes) (c : Correlator)
    → (handle_path now r s' u rest c).state_map ≡ c.state_map
unfolding handle_path set_dict
state_map-handle_path now r s' u none c = refl
state_map-handle_path now r s' u (some path) c = refl

state_map-handle_app_info :
    (now : ℕ) (r : MapRecord) (s' : Bytes) (u : UserInfo) (rest : Option Bytes) (c : Correlator)
    → (handle_app_info now r s' u rest c).state_map ≡ c.state_map
unfolding handle_app_info update_user set_user set_dict
state_map-handle_app_info now r s' u none c = refl
state_map-handle_app_info now r s' u (some info) c = ground arith

state_map-handle_ea_info :
    (now : ℕ) (s' : Bytes) (u : UserInfo) (rest : Option Bytes) (c : Correlator)
    → (handle_ea_info now s' u rest c).state_map ≡ c.state_map
unfolding handle_ea_info set_dict set_user
state_map-handle_ea_info now s' u none c = refl
state_map-handle_ea_info now s' u (some text) c = ground (arith, state_map-update_user now s')

state_map-handle_dict_id_record :
    (now : ℕ) (r : MapRecord) (s' : Bytes) (ty : ℕ) (c : Correlator)
    → (handle_dict_id_record now r s' ty c).state_map ≡ c.state_map
unfolding handle_dict_id_record set_dict set_user
state_map-handle_dict_id_record now r s' ty c = ground (
  arith,
  state_map-handle_path now r s',
  state_map-handle_app_info now r s',
  state_map-handle_ea_info now s',
)

abbrev pub PacketsSpare : {Event : Type 0} → Bytes → ℕ → List (ℕ × Packet Event) → Type 0
PacketsSpare s f [] = Unit
PacketsSpare s f ((now, p) ∷ ps) =
    AllSpare s f (build_server_id p.header.server_start p.remote_addr) p.file_records
    × PacketsSpare s f ps

-- Packets one after the other, each at its time.
abbrev pub process_packets :
    {Event : Type 0} → GoLib → List (ℕ × Packet Event) → Correlator → Correlator
process_packets lib [] c = c
process_packets lib ((now, p) ∷ ps) c = process_packets lib ps (process_packet lib now p c).1

module _ (lib : GoLib) (t : ℕ) (s : Bytes) (f : ℕ) where
  abbrev seen : Correlator → Option FileState
  seen = open_file t s f

  seen-handle_file_open :
      (now : ℕ) (start : ℤ) (r : FileOpenRecord) (s' : Bytes) (c : Correlator)
      → (s' ≢ s) ⊎ (r.header.file_id ≢ f)
      → seen (handle_file_open now start r s' c) ≡ seen c
  unfolding handle_file_open set_state
  seen-handle_file_open now start r s' c h =
      get-set_ne t now _ _ _ c.state_map (build_file_key-ne s s' f r.header.file_id h)

  seen-handle_time_record :
      (now : ℕ) (r : FileTimeRecord) (s' : Bytes) (c : Correlator)
      → seen (handle_time_record now r s' c) ≡ seen c
  unfolding handle_time_record set_state
  seen-handle_time_record now r s' c =
      get-set_ne t now _ _ _ c.state_map
        (λ e. build_file_key-ne-build_time_key s s' f r.header.file_id r.sid (sym e))

  seen-handle_disconnect :
      (now : ℕ) (r : FileDisconnectRecord) (s' : Bytes) (c : Correlator)
      → seen (handle_disconnect now r s' c) ≡ seen c
  unfolding handle_disconnect
  seen-handle_disconnect now r s' c = ground arith

  seen-delete :
      (k : Bytes) (c : Correlator)
      → k ≢ build_file_key s f
      → seen (record c { state_map = delete k c.state_map }) ≡ seen c
  seen-delete k c h = get-delete t (build_file_key s f) k c.state_map ∙ rw (eqb-ne _ _ h)

  seen-handle_file_close :
      (now : ℕ) (start : ℤ) (addr : Bytes) (r : FileCloseRecord) (s' : Bytes) (c : Correlator)
      → (s' ≢ s) ⊎ (r.header.file_id ≢ f)
      → seen (handle_file_close lib now start addr r s' c).1 ≡ seen c
  unfolding handle_file_close
  seen-handle_file_close now start addr r s' c h = ground (
    arith,
    seen-delete (build_file_key s' r.header.file_id) c
        (build_file_key-ne s s' f r.header.file_id h),
  )

  seen-process_records :
      (now : ℕ) (start : ℤ) (addr s' : Bytes) (rs : List FileRecord) (c : Correlator)
      → AllSpare s f s' rs
      → seen (process_records lib now start addr s' rs c).1 ≡ seen c
  unfolding process_records
  seen-process_records now start addr s' [] c h = refl
  seen-process_records now start addr s' (open_record r ∷ rs) c h =
      seen-process_records now start addr s' rs (handle_file_open now start r s' c) h.1
      ∙ seen-handle_file_open now start r s' c h.0
  seen-process_records now start addr s' (close_record r ∷ rs) c h =
      seen-process_records now start addr s' rs (handle_file_close lib now start addr r s' c).1 h.1
      ∙ seen-handle_file_close now start addr r s' c h.0
  seen-process_records now start addr s' (time_record r ∷ rs) c h =
      seen-process_records now start addr s' rs (handle_time_record now r s' c) h.1
      ∙ seen-handle_time_record now r s' c
  seen-process_records now start addr s' (disconnect_record r ∷ rs) c h =
      seen-process_records now start addr s' rs (handle_disconnect now r s' c) h.1
      ∙ seen-handle_disconnect now r s' c

  abbrev in_map : StateMap FileState → Option FileState
  in_map = get t (build_file_key s f)

  seen-process_packet :
      {Event : Type 0} (now : ℕ) (p : Packet Event) (c : Correlator)
      → AllSpare s f (build_server_id p.header.server_start p.remote_addr) p.file_records
      → seen (process_packet lib now p c).1 ≡ seen c
  unfolding process_packet handle_server_info
  seen-process_packet now p c h = elim (Bool-cases p.is_xml) [
    | inl xml ↦ (rw (xml) refl)
    | inr xml ↦ elim (Option-cases p.server_info) [
      | inl no_info ↦ elim (Option-cases p.map_record) [
        | inl no_map ↦ elim (Option-cases p.user_record) [
          | inl no_user ↦
              (rw (xml, no_info, no_map, no_user)
                (seen-process_records now p.header.server_start p.remote_addr _ p.file_records c h))
          | inr (u, e) ↦
              (rw (xml, no_info, no_map, e) (ap in_map (state_map-handle_user_record now u _ c)))
        ]
        | inr (m, e) ↦
            (rw (xml, no_info, e)
              (ap in_map (state_map-handle_dict_id_record now m _ p.packet_type c)))
      ]
      | inr (i, e) ↦ (rw (xml, e) refl)
    ]
  ]

  pub seen-process_packets :
      {Event : Type 0} (ps : List (ℕ × Packet Event)) (c : Correlator)
      → PacketsSpare s f ps
      → seen (process_packets lib ps c) ≡ seen c
  seen-process_packets [] c h = refl
  seen-process_packets ((now, p) ∷ ps) c h =
      seen-process_packets ps (process_packet lib now p c).1 h.1 ∙ seen-process_packet now p c h.0
