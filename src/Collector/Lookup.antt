-- ===== src/Collector/Lookup.antt =====
-- `getUserInfo` of collector/correlator.go and `enrichWithDNSSync` of collector/enrichment.go: what
-- the maps know of a user and of an address.
use xrootd_monitoring_shovel.Base.{
  ℕ, Bool, true, false, not, ◌||◌, [], Option, none, some, Bytes, is_empty, pos, ◌==◌,
  if◌then◌else◌,
}
use xrootd_monitoring_shovel.Parser.Records.{UserInfo}
use xrootd_monitoring_shovel.Parser.Info.{empty_auth, empty_token}
use xrootd_monitoring_shovel.Collector.State.{get}
use xrootd_monitoring_shovel.Collector.Keys.{build_dict_key, build_dict_id_key, build_user_info_key}
use xrootd_monitoring_shovel.Collector.Types.{UserState, path_info, user, Correlator}

-- The user of a dictionary id.
unfoldable pub user_of_id : ℕ → Bytes → ℕ → Correlator → Option UserInfo
user_of_id now server_id user_id c =
    elim (get now (build_dict_id_key server_id user_id) c.dict_map) [
      | some (user u) ↦ some u
      | _ ↦ none
    ]

-- The user of a path mapping.
unfoldable pub user_of_path : ℕ → Bytes → ℕ → Correlator → Option UserInfo
user_of_path now server_id file_id c =
    elim (get now (build_dict_key server_id file_id) c.dict_map) [
      | some (path_info p) ↦ some p.user_info
      | _ ↦ none
    ]

-- The user by the id if that is not 0, and else by the file's path if its id is not 0.
unfoldable pub find_user : ℕ → ℕ → ℕ → Bytes → Correlator → Option UserInfo
unfolding user_of_id user_of_path
find_user now user_id file_id server_id c =
    let by_path = if file_id == 0 then none else user_of_path now server_id file_id c in
    elim (if user_id == 0 then none else user_of_id now server_id user_id c) [
      | some u ↦ some u
      | none ↦ by_path
    ]

-- What is known of a user without a user packet.
abbrev pub minimal_user : UserInfo → UserState
minimal_user u = record {
  user_id = 0;
  user_info = u;
  auth_info = empty_auth;
  token_info = empty_token;
  app_info = [];
  experiment_id = pos 0;
  activity_id = pos 0;
  created_at = 0;
}

unfoldable pub get_user_info : ℕ → ℕ → ℕ → Bytes → Correlator → Option UserState
get_user_info now user_id file_id server_id c = elim (find_user now user_id file_id server_id c) [
  | none ↦ none
  | some u ↦ elim (get now (build_user_info_key server_id u) c.user_map) [
    | none ↦ some (minimal_user u)
    | some s ↦ some s
  ]
]

-- The host name in the cache, and whether a lookup is needed.
unfoldable pub enrich_with_dns_sync : ℕ → Bytes → Correlator → Bytes × Bool
enrich_with_dns_sync now ip c =
    if not c.enable_dns_enrichment || is_empty ip
    then ([], false)
    else (elim (get now ip c.dns_cache) [ none ↦ ([], true) | some hostname ↦ (hostname, false) ])
