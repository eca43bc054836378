-- ===== src/Collector/Types.antt =====
-- The state of collector/correlator.go and its output records. The fields of `CollectorRecord` stand
-- in groups, each a record of its own.
use xrootd_monitoring_shovel.Base.{ℕ, ℤ, Bool, Option, Bytes}
use xrootd_monitoring_shovel.Parser.Records.{
  UserInfo, AuthInfo, TokenInfo, ServerInfo, StatXfr, StatOps,
}
use xrootd_monitoring_shovel.Collector.State.{StateMap}
use xrootd_monitoring_shovel.Collector.Scitags.{ScitagsRegistry}

pub record FileState : Type 0 where
  pub file_id : ℕ
  pub user_id : ℕ
  pub open_time : ℤ
  pub file_size : ℤ
  pub filename : Bytes
  pub server_id : Bytes
  pub stream_id : ℤ
  pub created_at : ℕ

pub record UserState : Type 0 where
  pub user_id : ℕ
  pub user_info : UserInfo
  pub auth_info : AuthInfo
  pub token_info : TokenInfo
  pub app_info : Bytes
  pub experiment_id : ℤ
  pub activity_id : ℤ
  pub created_at : ℕ

pub record PathInfo : Type 0 where
  pub path : Bytes
  pub user_info : UserInfo

-- What the values of `dictMap` are: a raw text, a path with its user, or a user.
pub data DictValue : Type 0 where
  raw : Bytes → DictValue
  path_info : PathInfo → DictValue
  user : UserInfo → DictValue

pub record Correlator : Type 0 where
  pub state_map : StateMap FileState
  pub user_map : StateMap UserState
  pub dict_map : StateMap DictValue
  pub server_map : StateMap ServerInfo
  pub dns_cache : StateMap Bytes
  pub enable_dns_enrichment : Bool
  pub scitags : ScitagsRegistry

-- Timestamp in nanoseconds; the others in seconds.
pub record TimeFields : Type 0 where
  pub timestamp : ℕ
  pub start_time : ℤ
  pub end_time : ℤ
  pub operation_time : ℤ

pub record ServerFields : Type 0 where
  pub server_id : Bytes
  pub server_hostname : Bytes
  pub server : Bytes
  pub server_ip : Bytes
  pub site : Bytes
  pub needs_server_dns : Bool
  pub server_enrichment_ip : Bytes

pub record UserFields : Type 0 where
  pub user : Bytes
  pub user_dn : Bytes
  pub user_domain : Bytes
  pub vo : Bytes
  pub host : Bytes
  pub protocol : Bytes
  pub app_info : Bytes
  pub ipv6 : Bool
  pub token_subject : Bytes
  pub token_username : Bytes
  pub token_org : Bytes
  pub token_role : Bytes
  pub token_groups : Bytes
  pub needs_dns_enrichment : Bool
  pub enrichment_ip : Bytes

pub record ScitagsFields : Type 0 where
  pub experiment : Bytes
  pub activity : Bytes
  pub experiment_id : ℤ
  pub activity_id : ℤ
  pub scitags_vo : Bytes

pub record FileFields : Type 0 where
  pub filename : Bytes
  pub dirname1 : Bytes
  pub dirname2 : Bytes
  pub logical_dirname : Bytes
  pub filesize : ℤ

-- The counters of the close record: Read, Readv and Write with their bytes, and the operations, with
-- the averages that are computed. `read_vector_count_average` is the float64 quotient of the two
-- integers, 0 for `none`.
pub record TransferFields : Type 0 where
  pub xfr : StatXfr
  pub ops : StatOps
  pub read_average : ℤ
  pub read_single_average : ℤ
  pub read_vector_average : ℤ
  pub write_average : ℤ
  pub read_vector_count_average : Option (ℤ × ℤ)

pub record CollectorRecord : Type 0 where
  pub times : TimeFields
  pub server : ServerFields
  pub user : UserFields
  pub scitags : ScitagsFields
  pub file : FileFields
  pub transfer : TransferFields
  pub has_file_close_msg : ℕ
