-- ===== src/Collector/Record.antt =====
-- `getUserInfo`, `enrichWithDNSSync`, `normalizeVO` and `createCorrelatedRecord` of
-- collector/correlator.go. All time.Now calls of one packet are read as one time, `now`.
use xrootd_monitoring_shovel.Base.{
  ℕ, suc, ◌/◌, ◌^◌, Bool, true, false, not, ◌&&◌, ◌||◌, List, [], ◌∷◌, Option, none, some, Bytes,
  bytes, is_empty, eqb, ℤ, pos, negsuc, ◌-ℤ◌, is_pos, fields, join, ◌==◌, if◌then◌else◌,
}
use xrootd_monitoring_shovel.Parser.Records.{FileCloseRecord}
use xrootd_monitoring_shovel.Collector.State.{get}
use xrootd_monitoring_shovel.Collector.GoLib.{GoLib, to_lower}
use xrootd_monitoring_shovel.Collector.Scitags.{to_uint64, experiment_name, activity_name}
use xrootd_monitoring_shovel.Collector.Hosts.{
  is_ip_pattern, extract_ip_from_host, extract_host_from_remote_addr, extract_domain_from_hostname,
}
use xrootd_monitoring_shovel.Collector.Paths.{extract_dirnames}
use xrootd_monitoring_shovel.Collector.Keys.{build_server_id, build_user_hex}
use xrootd_monitoring_shovel.Collector.Types.{
  FileState, UserState, Correlator, ServerFields, UserFields, ScitagsFields, TransferFields,
  CollectorRecord,
}
use xrootd_monitoring_shovel.Collector.Lookup.{get_user_info, enrich_with_dns_sync}

-- Truncated division of an int64 by a positive one.
quotient : ℤ → ℕ → ℤ
quotient (pos n) d = pos (n / d)
quotient (negsuc n) d = pos 0 -ℤ pos (suc n / d)

average : ℤ → ℤ → ℤ
unfolding quotient
average total (pos n) = if n == 0 then pos 0 else quotient total n
average total (negsuc n) = pos 0

unfoldable pub transfer_of : FileCloseRecord → TransferFields
unfolding average
transfer_of rec = record {
  xfr = rec.xfr;
  ops = rec.ops;
  read_average = average rec.xfr.read rec.ops.read;
  read_single_average = average rec.xfr.read rec.ops.read;
  read_vector_average = average rec.xfr.readv rec.ops.readv;
  write_average = average rec.xfr.write rec.ops.write;
  read_vector_count_average =
      if is_pos rec.ops.readv then some (rec.ops.rsegs, rec.ops.readv) else none;
}

module _ (lib : GoLib) where
  member : Bytes → List Bytes → Bool
  member k [] = false
  member k (x ∷ xs) = eqb x k || member k xs

  unique_tokens : List Bytes → List Bytes → List Bytes
  unfolding member
  unique_tokens seen [] = []
  unique_tokens seen (t ∷ ts) =
      let k = to_lower lib t in
      elim (member k seen) [
        | true ↦ unique_tokens seen ts
        | false ↦ t ∷ unique_tokens (k ∷ seen) ts
      ]

  unfoldable pub normalize_vo : Bytes → Bytes
  unfolding unique_tokens
  normalize_vo s = join b' ' (unique_tokens [] (fields s))

  -- The domain of a user's host, and what is left for the DNS workers.
  abbrev domain_from : Bytes × Bool → Bytes → Bytes × Bool × Bytes
  domain_from (hostname, needs) ip =
      if not (is_empty hostname)
      then (extract_domain_from_hostname hostname, false, [])
      else if needs
      then ([], true, ip)
      else ([], false, [])

  unfoldable pub user_domain_of : ℕ → Bytes → Correlator → Bytes × Bool × Bytes
  user_domain_of now host c =
      if is_empty host
      then ([], false, [])
      else if is_ip_pattern host
      then domain_from (enrich_with_dns_sync now (extract_ip_from_host lib host) c)
          (extract_ip_from_host lib host)
      else (extract_domain_from_hostname host, false, [])

  -- strings.Split(s, "::")[0]
  before_colons : Bytes → Bytes
  before_colons [] = []
  before_colons (x ∷ []) = x ∷ []
  before_colons (x ∷ y ∷ s) =
      let rest = before_colons (y ∷ s) in if x == b':' && y == b':' then [] else x ∷ rest

  unknown_user : ℕ → UserFields
  unknown_user user_id = record {
    user = build_user_hex user_id;
    user_dn = [];
    user_domain = [];
    vo = [];
    host = bytes "unknown";
    protocol = bytes "unknown";
    app_info = [];
    ipv6 = false;
    token_subject = [];
    token_username = [];
    token_org = [];
    token_role = [];
    token_groups = [];
    needs_dns_enrichment = false;
    enrichment_ip = [];
  }

  unfoldable pub user_fields : ℕ → ℕ → Option UserState → Correlator → UserFields
  unfolding unknown_user before_colons
  user_fields now user_id none c = unknown_user user_id
  user_fields now user_id (some u) c =
      let domain = user_domain_of now u.user_info.host c in
      record {
        user = u.user_info.username;
        user_dn = before_colons u.auth_info.dn;
        user_domain = domain.0;
        vo = if is_empty u.auth_info.org then [] else normalize_vo u.auth_info.org;
        host = u.user_info.host;
        protocol = u.user_info.protocol;
        app_info = u.app_info;
        ipv6 = eqb u.auth_info.inet_version (bytes "6");
        token_subject = u.token_info.subject;
        token_username = u.token_info.username;
        token_org = u.token_info.org;
        token_role = u.token_info.role;
        token_groups = u.token_info.groups;
        needs_dns_enrichment = domain.1;
        enrichment_ip = domain.2;
      }

  -- The names of the ids; an activity has a name only with its experiment.
  unfoldable pub scitags_fields : Option UserState → Correlator → ScitagsFields
  scitags_fields none c = record {
    experiment = [];
    activity = [];
    experiment_id = pos 0;
    activity_id = pos 0;
    scitags_vo = [];
  }
  scitags_fields (some u) c =
      let name = experiment_name c.scitags (to_uint64 u.experiment_id) in
      record {
        experiment = name;
        activity =
            if is_empty name
            then []
            else activity_name c.scitags (to_uint64 u.experiment_id) (to_uint64 u.activity_id);
        experiment_id = u.experiment_id;
        activity_id = u.activity_id;
        scitags_vo = name;
      }

  site_of : ℕ → Bytes → Correlator → Bytes
  site_of now server_id c = elim (get now server_id c.server_map) [
    | none ↦ bytes "UNKNOWN"
    | some info ↦ if is_empty info.site then bytes "UNKNOWN" else info.site
  ]

  -- The server's address, its name, and what is left for the DNS workers.
  abbrev hostname_from : Bytes × Bool → Bytes → Bytes → Bytes × Bool × Bytes
  hostname_from (hostname, needs) host ip =
      if not (is_empty hostname)
      then (hostname, false, [])
      else if needs
      then (host, true, ip)
      else (host, false, [])

  unfoldable pub server_name_of : ℕ → Bytes → Correlator → Bytes × Bool × Bytes
  server_name_of now host c =
      if is_ip_pattern host
      then hostname_from (enrich_with_dns_sync now (extract_ip_from_host lib host) c) host
          (extract_ip_from_host lib host)
      else (host, false, [])

  unfoldable pub server_fields : ℕ → ℤ → Bytes → Bytes → Correlator → ServerFields
  unfolding site_of
  server_fields now server_start remote_addr server_id c =
      let unknown = bytes "unknown" in
      let host =
        if is_empty remote_addr then unknown else extract_host_from_remote_addr lib remote_addr in
      let name : Bytes × Bool × Bytes =
        if is_empty remote_addr then (unknown, false, []) else server_name_of now host c in
      record {
        server_id = build_server_id server_start remote_addr;
        server_hostname = name.0;
        server = host;
        server_ip = host;
        site = site_of now server_id c;
        needs_server_dns = name.1;
        server_enrichment_ip = name.2;
      }

  unfoldable pub create_correlated_record :
      ℕ → ℤ → Bytes → FileState → FileCloseRecord → Correlator → CollectorRecord
  create_correlated_record now server_start remote_addr state rec c =
      let found = get_user_info now state.user_id state.file_id state.server_id c in
      let dirs = extract_dirnames state.filename in
      let seconds = pos (now / 10 ^ 9) in
      record {
        times = record {
          timestamp = now;
          start_time = state.open_time;
          end_time = seconds;
          operation_time = seconds -ℤ state.open_time;
        };
        server = server_fields now server_start remote_addr state.server_id c;
        user = user_fields now state.user_id found c;
        scitags = scitags_fields found c;
        file = record {
          filename = state.filename;
          dirname1 = dirs.dirname1;
          dirname2 = dirs.dirname2;
          logical_dirname = dirs.logical_dirname;
          filesize = state.file_size;
        };
        transfer = transfer_of rec;
        has_file_close_msg = 1;
      }
