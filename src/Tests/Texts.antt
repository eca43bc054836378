-- ===== src/Tests/Texts.antt =====
-- User, authorization and server texts, and the keys of the state maps.
use xrootd_monitoring_shovel.Base.{ℕ, ◌≡◌, ◌≢◌, refl, [], Bytes, bytes, pos, negsuc, some, arith}
use xrootd_monitoring_shovel.Parser.Records.{UserInfo, AuthInfo, ServerInfo}
use xrootd_monitoring_shovel.Parser.Info
use xrootd_monitoring_shovel.Parser.Info.{InfoResult, parse_auth_info, parse_server_info}
use xrootd_monitoring_shovel.Parser.Info.RoundTrip.{user_text, parse_user_info-user_text}
use xrootd_monitoring_shovel.Parser.Info.Fields.{
  field_text, auth_fields, server_fields, parse_auth_info-field_text, parse_server_info-field_text,
}
use xrootd_monitoring_shovel.Collector.UserInfo.{parse_user_info}
use xrootd_monitoring_shovel.Collector.UserInfo.Agrees.{parse_user_info-agrees}
use xrootd_monitoring_shovel.Collector.Keys.{build_file_key, build_time_key}
use xrootd_monitoring_shovel.Collector.Keys.Injective.{
  file, build_key_injective, build_file_key-ne-build_time_key,
}

abbrev xroot : Bytes
xroot = bytes "xroot"

abbrev host : Bytes
host = bytes "h.org"

abbrev user_42 : UserInfo
user_42 = record {
  protocol = xroot;
  username = bytes "a.b";
  pid = pos 42;
  sid = pos 7;
  host = host;
}

parse_user_info-user_text_at_input :
    Info.parse_user_info (user_text xroot (bytes "a.b") (bytes "42") (bytes "7") host)
    ≡ InfoResult.ok user_42
parse_user_info-user_text_at_input =
    parse_user_info-user_text xroot (bytes "a.b") (bytes "42") (bytes "7") host (omega arith)
      (omega arith) (omega arith) (omega arith, λ e. cc, omega arith)
      (omega arith, λ e. cc, omega arith)

parse_user_info-agrees_at_input :
    (i : UserInfo) × (Info.parse_user_info
        (user_text xroot (bytes "ab") (bytes "42") (bytes "7") host)
      ≡ InfoResult.ok i)
    × (parse_user_info (user_text xroot (bytes "ab") (bytes "42") (bytes "7") host) ≡ some i)
parse_user_info-agrees_at_input =
    parse_user_info-agrees xroot (bytes "7") host (omega arith) (omega arith)
      (omega arith, λ e. cc, omega arith) (bytes "42") (omega arith, λ e. cc, omega arith)
      (bytes "ab") (omega arith) (omega arith) (omega arith) (omega arith)

abbrev auth : AuthInfo
auth = record {
  auth_protocol = bytes "gsi";
  dn = bytes "/CN=x";
  hostname = [];
  org = bytes "cms";
  role = [];
  groups = [];
  info = [];
  exec_name = bytes "xrdcp";
  mon_info = [];
  inet_version = bytes "6";
}

parse_auth_info-field_text_at_input : parse_auth_info (field_text (auth_fields auth)) ≡ auth
parse_auth_info-field_text_at_input = parse_auth_info-field_text auth (ground arith)

abbrev server : ServerInfo
server = record {
  site = bytes "T2";
  port = bytes "1094";
  instance_name = [];
  program = bytes "xrootd";
  version = bytes "v5";
}

parse_server_info-field_text_at_input :
    parse_server_info (field_text (server_fields server)) ≡ server
parse_server_info-field_text_at_input = parse_server_info-field_text server (ground arith)

-- Server names that end like a key.
build_key_injective_example :
    (file ≡ file) × (bytes "1#a-file-2" ≡ bytes "1#a-file-2") × (◌≡◌ {A = ℕ} 34 34)
build_key_injective_example =
    build_key_injective file file (bytes "1#a-file-2") (bytes "1#a-file-2") 34 34 refl

build_file_key-ne-build_time_key_at_input :
    build_file_key (bytes "1#a-time-2-") 3 ≢ build_time_key (bytes "1#a") 2 (negsuc 2)
build_file_key-ne-build_time_key_at_input =
    build_file_key-ne-build_time_key (bytes "1#a-time-2-") (bytes "1#a") 3 2 (negsuc 2)
