-- ===== src/Parser/Records.antt =====
-- The record types of parser/xrootd_parser.go. Fields of signed Go types are integers, fields of
-- unsigned types are natural numbers.
use xrootd_monitoring_shovel.Base.{ℕ, ℤ, pos, Bytes}

-- The packet header of 8 bytes.
pub record Header : Type 0 where
  pub code : ℕ
  pub pseq : ℕ
  pub plen : ℕ
  pub server_start : ℤ

pub record FileHeader : Type 0 where
  pub rec_type : ℕ
  pub rec_flag : ℕ
  pub rec_size : ℕ
  pub file_id : ℕ
  pub user_id : ℕ
  pub n_recs0 : ℤ
  pub n_recs1 : ℤ

pub record FileTimeRecord : Type 0 where
  pub header : FileHeader
  pub t_beg : ℤ
  pub t_end : ℤ
  pub sid : ℤ

pub record StatXfr : Type 0 where
  pub read : ℤ
  pub readv : ℤ
  pub write : ℤ

pub record StatOps : Type 0 where
  pub read : ℤ
  pub readv : ℤ
  pub write : ℤ
  pub rs_min : ℤ
  pub rs_max : ℤ
  pub rsegs : ℤ
  pub rd_min : ℤ
  pub rd_max : ℤ
  pub rv_min : ℤ
  pub rv_max : ℤ
  pub wr_min : ℤ
  pub wr_max : ℤ

pub record FileCloseRecord : Type 0 where
  pub header : FileHeader
  pub xfr : StatXfr
  pub ops : StatOps

pub record FileOpenRecord : Type 0 where
  pub header : FileHeader
  pub file_size : ℤ
  pub user : ℕ
  pub lfn : Bytes

pub record FileDisconnectRecord : Type 0 where
  pub header : FileHeader
  pub user_id : ℕ

-- What `FileRecords []interface{}` holds.
pub data FileRecord : Type 0 where
  time_record : FileTimeRecord → FileRecord
  close_record : FileCloseRecord → FileRecord
  open_record : FileOpenRecord → FileRecord
  disconnect_record : FileDisconnectRecord → FileRecord

-- The zero value that a close record without statistics keeps.
abbrev pub zero_ops : StatOps
zero_ops = record {
  read = pos 0;
  readv = pos 0;
  write = pos 0;
  rs_min = pos 0;
  rs_max = pos 0;
  rsegs = pos 0;
  rd_min = pos 0;
  rd_max = pos 0;
  rv_min = pos 0;
  rv_max = pos 0;
  wr_min = pos 0;
  wr_max = pos 0;
}

pub record UserInfo : Type 0 where
  pub protocol : Bytes
  pub username : Bytes
  pub pid : ℤ
  pub sid : ℤ
  pub host : Bytes

pub record AuthInfo : Type 0 where
  pub auth_protocol : Bytes
  pub dn : Bytes
  pub hostname : Bytes
  pub org : Bytes
  pub role : Bytes
  pub groups : Bytes
  pub info : Bytes
  pub exec_name : Bytes
  pub mon_info : Bytes
  pub inet_version : Bytes

pub record TokenInfo : Type 0 where
  pub user_dict_id : ℕ
  pub subject : Bytes
  pub username : Bytes
  pub org : Bytes
  pub role : Bytes
  pub groups : Bytes

pub record ServerInfo : Type 0 where
  pub site : Bytes
  pub port : Bytes
  pub instance_name : Bytes
  pub program : Bytes
  pub version : Bytes

pub record MapRecord : Type 0 where
  pub header : Header
  pub dict_id : ℕ
  pub info : Bytes

pub record UserRecord : Type 0 where
  pub header : Header
  pub dict_id : ℕ
  pub user_info : UserInfo
  pub auth_info : AuthInfo
  pub token_info : TokenInfo
