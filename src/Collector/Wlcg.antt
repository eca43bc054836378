-- ===== src/Collector/Wlcg.antt =====
-- collector/wlcg_converter.go: `ConvertToWLCG`, the path tests, and the transformations of g-stream
-- events in the module Events.
pub mod Events
pub mod Fields
pub mod Names
use xrootd_monitoring_shovel.Base.{
  ℕ, ◌+◌, ◌%◌, Bool, true, false, ◌==◌, ◌||◌, List, [], ◌∷◌, Option, none, some, Bytes, bytes,
  is_empty, has_prefix, trim_space, split, join, last_two, length, drop, leb, ℤ, is_pos, to_int64,
  if◌then◌else◌,
}
use xrootd_monitoring_shovel.Parser.Wire.{of_int64}
use xrootd_monitoring_shovel.Collector.Types.{CollectorRecord, TransferFields, ScitagsFields}

-- WLCGMetadata
pub record WlcgMetadata : Type 0 where
  pub producer : Bytes
  pub record_type : Bytes
  pub gstream_producer : Bytes
  pub vo : Bytes

-- What uuid.New, os.Hostname and time.Now give to a call; the time in milliseconds.
pub record Context : Type 0 where
  pub uuid : Bytes
  pub hostname : Bytes
  pub now : ℕ

-- The metadata block of a record or of an event.
pub record Metadata : Type 0 where
  pub producer : Bytes
  pub record_type : Bytes
  pub timestamp : ℕ
  pub type_prefix : Bytes
  pub host : Bytes
  pub id : Bytes

-- WLCGRecord. The fields on operations and their averages, which are copied, stand in the group
-- `transfer`, as in the collector's record, and those of SciTags in `scitags`.
pub record WlcgRecord : Type 0 where
  pub site_name : Bytes
  pub fallback : Bool
  pub user_dn : Bytes
  pub user : Bytes
  pub client_host : Bytes
  pub client_domain : Bytes
  pub server_host : Bytes
  pub server_domain : Bytes
  pub server_ip : Bytes
  pub unique_id : Bytes
  pub file_lfn : Bytes
  pub file_size : ℤ
  pub read_bytes : ℤ
  pub read_single_bytes : ℤ
  pub read_vector_bytes : ℤ
  pub ipv6 : Bool
  pub start_time : ℤ
  pub end_time : ℤ
  pub operation_time : ℤ
  pub operation : Bytes
  pub server_site : Bytes
  pub user_protocol : Bytes
  pub vo : Bytes
  pub write_bytes : ℤ
  pub transfer : TransferFields
  pub scitags : ScitagsFields
  pub crab_id : Bytes
  pub crab_retry : Bytes
  pub crab_workflow : Bytes
  pub metadata : Metadata

-- The last two parts of a host name with a dot.
unfoldable pub server_domain_of : Bytes → Bytes
server_domain_of host =
    let parts = split host b'.' in if leb 2 (length parts) then join b'.' (last_two parts) else []

unfoldable pub operation_of : ℤ → ℤ → ℤ → Bytes
operation_of read readv write =
    if is_pos read || is_pos readv
    then bytes "read"
    else if is_pos write
    then bytes "write"
    else bytes "unknown"

-- The last part of strings.Split(s, sep), if there is more than one; sep does not overlap itself.
unfoldable pub after_last : Bytes → Bytes → Option Bytes
after_last sep [] = none
after_last sep (c ∷ s) = elim (after_last sep s) [
  | some r ↦ some r
  | none ↦ if has_prefix (c ∷ s) sep then some (drop (length sep) (c ∷ s)) else none
]

unfoldable pub user_of_dn : Bytes → Bytes
unfolding after_last
user_of_dn dn = elim (after_last (bytes "CN=") dn) [ none ↦ [] | some user ↦ user ]

-- a + b of int64
abbrev pub plus_int64 : ℤ → ℤ → ℤ
plus_int64 a b = to_int64 ((of_int64 a + of_int64 b) % 0x10000000000000000)

unfoldable pub last_part : List Bytes → Bytes
last_part [] = []
last_part (p ∷ []) = p
last_part (p ∷ q ∷ ps) = last_part (q ∷ ps)

-- CRABId, CRABWorkflow and CRABRetry of the appinfo.
unfoldable pub crab_parts : List Bytes → Bytes × Bytes × Bytes
unfolding last_part
crab_parts (id ∷ url ∷ retry ∷ []) = (id, last_part (split url b'/'), retry)
crab_parts _ = ([], [], [])

unfoldable pub crab_of : Bytes → Bytes × Bytes × Bytes
unfolding crab_parts
crab_of app_info = crab_parts (split app_info b'_')

unfoldable pub raw_metadata : Context → Bytes → Bytes → Metadata
raw_metadata context producer record_type = record {
  producer = producer;
  record_type = record_type;
  timestamp = context.now;
  type_prefix = bytes "raw";
  host = context.hostname;
  id = context.uuid;
}

unfoldable pub convert_to_wlcg : Context → CollectorRecord → WlcgMetadata → WlcgRecord
unfolding server_domain_of operation_of user_of_dn crab_of raw_metadata
convert_to_wlcg context r meta = record {
  site_name = r.server.site;
  fallback = true;
  user_dn = r.user.user_dn;
  user = user_of_dn r.user.user_dn;
  client_host = r.user.host;
  client_domain = r.user.user_domain;
  server_host = r.server.server_hostname;
  server_domain = server_domain_of r.server.server_hostname;
  server_ip = r.server.server_ip;
  unique_id = context.uuid;
  file_lfn = r.file.filename;
  file_size = r.file.filesize;
  read_bytes = plus_int64 r.transfer.xfr.read r.transfer.xfr.readv;
  read_single_bytes = r.transfer.xfr.read;
  read_vector_bytes = r.transfer.xfr.readv;
  ipv6 = r.user.ipv6;
  start_time = r.times.start_time;
  end_time = r.times.end_time;
  operation_time = r.times.operation_time;
  operation = operation_of r.transfer.xfr.read r.transfer.xfr.readv r.transfer.xfr.write;
  server_site = r.server.site;
  user_protocol = r.user.protocol;
  vo = if is_empty meta.vo then r.user.vo else meta.vo;
  write_bytes = r.transfer.xfr.write;
  transfer = r.transfer;
  scitags = r.scitags;
  crab_id = (crab_of r.user.app_info).0;
  crab_workflow = (crab_of r.user.app_info).1;
  crab_retry = (crab_of r.user.app_info).2;
  metadata = raw_metadata context meta.producer meta.record_type;
}

-- strings.TrimLeft(s, "/")
without_slashes : Bytes → Bytes
without_slashes [] = []
without_slashes (c ∷ cs) = if c == b'/' then without_slashes cs else c ∷ cs

-- url.Parse, of which the path is used, is the first argument.
unfoldable pub tpc_path_check_wlcg : (Bytes → Option Bytes) → Bytes → Bool
unfolding without_slashes
tpc_path_check_wlcg parse_url url = elim (parse_url url) [
  | none ↦ false
  | some path ↦
      has_prefix (without_slashes path) (bytes "store")
      || has_prefix (without_slashes path) (bytes "user/dteam")
]

unfoldable pub cache_path_check_wlcg : Bytes → Bool
cache_path_check_wlcg path =
    has_prefix (trim_space path) (bytes "/store")
    || has_prefix (trim_space path) (bytes "/user/dteam")
