-- ===== src/Collector/Keys.antt =====
-- collector/key_builder.go: the keys of the state maps. A builder comes from the pool with an empty
-- buffer, since `Release` empties it.
pub mod Injective
use xrootd_monitoring_shovel.Base.{
  ℕ, suc, ◌+◌, ◌-◌, ◌%◌, ◌≡◌, List, [], ◌∷◌, ◌++◌, Bytes, bytes, decimal, decimal_negsuc,
  hexadecimal, ℤ, pos, negsuc, to_int32,
}
use xrootd_monitoring_shovel.Parser.Records.{UserInfo}

pub record KeyBuilder : Type 0 where
  pub buf : Bytes

unfoldable pub get_key_builder : KeyBuilder
get_key_builder = record { buf = [] }

unfoldable pub write_bytes : Bytes → KeyBuilder → KeyBuilder
write_bytes b kb = record { buf = kb.buf ++ b }

unfoldable pub write_byte : ℕ → KeyBuilder → KeyBuilder
write_byte b kb = record { buf = kb.buf ++ b ∷ [] }

unfoldable pub write_uint32 : ℕ → KeyBuilder → KeyBuilder
write_uint32 n kb = record { buf = kb.buf ++ decimal n }

-- strconv.AppendInt in base 10
unfoldable pub write_int64 : ℤ → KeyBuilder → KeyBuilder
write_int64 (pos n) kb = record { buf = kb.buf ++ decimal n }
write_int64 (negsuc n) kb = record { buf = kb.buf ++ decimal_negsuc n }

-- strconv.AppendInt in base 16
unfoldable pub write_int32_hex : ℤ → KeyBuilder → KeyBuilder
write_int32_hex (pos n) kb = record { buf = kb.buf ++ hexadecimal n }
write_int32_hex (negsuc n) kb = record { buf = kb.buf ++ (b'-' ∷ hexadecimal (suc n)) }

-- Statements in their order.
infixl 20 ◌▸◌
abbrev pub ◌▸◌ : KeyBuilder → (KeyBuilder → KeyBuilder) → KeyBuilder
kb ▸ f = f kb

unfoldable pub build_dict_key : Bytes → ℕ → Bytes
unfolding get_key_builder write_bytes write_uint32
build_dict_key server_id dict_id =
    (get_key_builder
      ▸ write_bytes server_id
      ▸ write_bytes (bytes "-dict-")
      ▸ write_uint32 dict_id).buf

unfoldable pub build_dict_id_key : Bytes → ℕ → Bytes
unfolding get_key_builder write_bytes write_uint32
build_dict_id_key server_id dict_id =
    (get_key_builder
      ▸ write_bytes server_id
      ▸ write_bytes (bytes "-dictid-")
      ▸ write_uint32 dict_id).buf

unfoldable pub build_file_key : Bytes → ℕ → Bytes
unfolding get_key_builder write_bytes write_uint32
build_file_key server_id file_id =
    (get_key_builder
      ▸ write_bytes server_id
      ▸ write_bytes (bytes "-file-")
      ▸ write_uint32 file_id).buf

unfoldable pub build_time_key : Bytes → ℕ → ℤ → Bytes
unfolding get_key_builder write_bytes write_uint32 write_byte write_int64
build_time_key server_id file_id sid =
    (get_key_builder
      ▸ write_bytes server_id
      ▸ write_bytes (bytes "-time-")
      ▸ write_uint32 file_id
      ▸ write_byte b'-'
      ▸ write_int64 sid).buf

-- uint32(x) of an int
abbrev pub to_uint32 : ℤ → ℕ
to_uint32 (pos n) = n % 0x100000000
to_uint32 (negsuc n) = 0xffffffff - n % 0x100000000

unfoldable pub build_user_info_key : Bytes → UserInfo → Bytes
unfolding get_key_builder write_bytes write_uint32 write_byte
build_user_info_key server_id info =
    (get_key_builder
      ▸ write_bytes server_id
      ▸ write_bytes (bytes "-userinfo-")
      ▸ write_bytes info.protocol
      ▸ write_byte b'/'
      ▸ write_bytes info.username
      ▸ write_byte b'.'
      ▸ write_uint32 (to_uint32 info.pid)
      ▸ write_byte b':'
      ▸ write_uint32 (to_uint32 info.sid)
      ▸ write_byte b'@'
      ▸ write_bytes info.host).buf

unfoldable pub build_server_id : ℤ → Bytes → Bytes
unfolding get_key_builder write_bytes write_byte write_int64
build_server_id server_start remote_addr =
    (get_key_builder ▸ write_int64 server_start ▸ write_byte b'#' ▸ write_bytes remote_addr).buf

unfoldable pub build_user_hex : ℕ → Bytes
unfolding get_key_builder write_int32_hex
build_user_hex user_id = (get_key_builder ▸ write_int32_hex (to_int32 user_id)).buf
