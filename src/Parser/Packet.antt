-- ===== src/Parser/Packet.antt =====
-- `ParsePacket`, `parseMapRecord`, `parseUserRecord`, `parseTokenRecord` and `parseGStreamRecord`.
-- The events of a g-stream are JSON objects; json.Unmarshal is the parameter `unmarshal`, which
-- gives nothing for a text that it refuses.
pub mod Shape
use xrootd_monitoring_shovel.Base.{
  ℕ, ◌*◌, ◌+◌, ◌/◌, ◌^◌, ◌≡◌, Bool, true, false, not, List, [], ◌∷◌, ◌++◌, Option, none, some,
  Bytes, bytes, is_empty, cut, ℤ, pos, negsuc, to_int32, length, drop, ltb, ◌==◌, if◌then◌else◌,
  trim_space, split, decimal, decimal_negsuc, ◌||◌,
}
use xrootd_monitoring_shovel.Parser.Records.{
  Header, MapRecord, UserRecord, ServerInfo, FileHeader, FileRecord, time_record, close_record,
  open_record, disconnect_record,
}
use xrootd_monitoring_shovel.Parser.Wire
use xrootd_monitoring_shovel.Parser.Wire.{u8, u16, u32, u64}
use xrootd_monitoring_shovel.Parser.FileRecords.{trim_nulls}
use xrootd_monitoring_shovel.Parser.Files.{Parsed, parse_file_records}
use xrootd_monitoring_shovel.Parser.Info.{
  InfoError, InfoResult, parse_user_info, parse_auth_info, parse_token_info, parse_server_info,
  empty_auth, empty_token,
}

-- A body that is too short, user information that is refused, or an event that is no JSON.
pub data BodyError : Type 0 where
  body_too_short bad_event : BodyError
  bad_user : InfoError → BodyError

pub data PacketError : Type 0 where
  empty_packet no_header length_mismatch unknown_type : PacketError
  bad_body : BodyError → PacketError

pub data Result {ℓ} (E A : Type ℓ) : Type ℓ where
  ok : A → Result E A
  err : E → Result E A

infixl 5 ◌>>=◌
abbrev pub ◌>>=◌ : {E A B : Type 0} → Result E A → (A → Result E B) → Result E B
ok a >>= f = f a
err e >>= f = err e

abbrev pub map_err : {E F A : Type 0} → (E → F) → Result E A → Result F A
map_err f (ok a) = ok a
map_err f (err e) = err (f e)

abbrev pub require : {E A : Type 0} → Option A → E → Result E A
require none e = err e
require (some a) e = ok a

abbrev pub user_result : {A : Type 0} → InfoResult A → Result BodyError A
user_result (InfoResult.ok a) = ok a
user_result (InfoResult.err e) = err (bad_user e)

pub record GStreamRecord (Event : Type 0) : Type 0 where
  pub begin : ℕ
  pub end : ℕ
  pub ident : ℕ
  pub stream_type : ℕ
  pub events : List Event

pub record Packet (Event : Type 0) : Type 0 where
  pub header : Header
  pub packet_type : ℕ
  pub is_xml : Bool
  pub map_record : Option MapRecord
  pub user_record : Option UserRecord
  pub server_info : Option ServerInfo
  pub g_stream_record : Option (GStreamRecord Event)
  pub file_records : List FileRecord
  pub raw_data : Bytes
  pub remote_addr : Bytes

abbrev pub zero_header : Header
zero_header = record { code = 0; pseq = 0; plen = 0; server_start = pos 0 }

-- A packet of which only the header is known.
abbrev pub bare : {Event : Type 0} → Header → Bytes → Packet Event
bare h b = record {
  header = h;
  packet_type = h.code;
  is_xml = false;
  map_record = none;
  user_record = none;
  server_info = none;
  g_stream_record = none;
  file_records = [];
  raw_data = b;
  remote_addr = [];
}

unfoldable pub read_header : Bytes → Option (Header × Bytes)
read_header b = Wire.◌>>=◌ (u8 b) λ (c, b). Wire.◌>>=◌ (u8 b) λ (p, b). Wire.◌>>=◌ (u16 b) λ (l, b).
    Wire.◌>>=◌ (u32 b)
      λ (s, b). some (record { code = c; pseq = p; plen = l; server_start = to_int32 s }, b)

-- The dictionary id behind the header, and the text behind it.
unfoldable pub read_dict_id : Bytes → Result BodyError (ℕ × Bytes)
read_dict_id b = require (u32 (drop 8 b)) body_too_short

unfoldable pub parse_map_record : Header → Bytes → Result BodyError MapRecord
unfolding read_dict_id
parse_map_record h b = do
  (dict_id, info) ← read_dict_id b
  ok (record { header = h; dict_id = dict_id; info = info })

-- The text before the first newline and the text behind it, empty if there is no newline.
unfoldable pub split_line : Bytes → Bytes × Bytes
split_line b = elim (cut b'\n' b) [ none ↦ (b, []) | some (x, y) ↦ (x, y) ]

unfoldable pub parse_user_record : Header → Bytes → Result BodyError UserRecord
unfolding read_dict_id split_line
parse_user_record h b = do
  (dict_id, info) ← read_dict_id b
  user ← user_result (parse_user_info (split_line info).0)
  ok (record {
    header = h;
    dict_id = dict_id;
    user_info = user;
    auth_info = parse_auth_info (split_line info).1;
    token_info = empty_token;
  })

unfoldable pub parse_token_record : Header → Bytes → Result BodyError UserRecord
unfolding read_dict_id split_line
parse_token_record h b = do
  (dict_id, info) ← read_dict_id b
  user ← user_result (parse_user_info (split_line info).0)
  ok (record {
    header = h;
    dict_id = dict_id;
    user_info = user;
    auth_info = empty_auth;
    token_info = parse_token_info (split_line info).1;
  })

-- The server's identification in the second line of a '=' packet.
unfoldable pub server_of : Bytes → Option ServerInfo
server_of info = elim (cut b'\n' info) [
  | none ↦ none
  | some (_, fields) ↦ some (parse_server_info fields)
]

module _ (Event : Type 0) (unmarshal : Bytes → Option Event) where
  unfoldable pub parse_events : List Bytes → Result BodyError (List Event)
  parse_events [] = ok []
  parse_events (line ∷ lines) =
      let text = trim_space line in
      let rest = parse_events lines in
      let parsed = do event ← require (unmarshal text) bad_event; events ← rest; ok (event ∷ events)
      in if is_empty text then rest else parsed

  -- The text behind the record's header, without its null bytes, in lines; an empty one has none.
  unfoldable pub parse_g_stream_record : Bytes → Result BodyError (GStreamRecord Event)
  unfolding parse_events
  parse_g_stream_record b = do
    (begin, b) ← require (u32 b) body_too_short
    (end, b) ← require (u32 b) body_too_short
    (ident, b) ← require (u64 b) body_too_short
    events ← parse_events (split (trim_nulls b) b'\n')
    ok (record {
      begin = begin;
      end = end;
      ident = ident;
      stream_type = ident / 2 ^ 56;
      events = events;
    })

  abbrev with_map : Packet Event → Bytes → Result PacketError (Packet Event)
  with_map p b = do
    m ← map_err bad_body (parse_map_record p.header b)
    ok (record p { map_record = some m })

  abbrev is_pass_through : ℕ → Bool
  is_pass_through c = c == b't' || c == b'x' || c == b'p' || c == b'r'

  -- An f-stream packet whose records cannot be read keeps none of them.
  abbrev records_of : Parsed → List FileRecord
  records_of (Parsed.done rs) = rs
  records_of (Parsed.failed _ _) = []
  records_of Parsed.out_of_fuel = []

  -- The switch on the packet's type.
  unfoldable pub parse_body : Header → Bytes → Result PacketError (Packet Event)
  parse_body h b =
      let p = bare h b in
      if h.code == b'='
      then (do
        m ← map_err bad_body (parse_map_record h b)
        ok (record p { map_record = some m; server_info = server_of m.info }))
      else if h.code == b'u'
      then (do u ← map_err bad_body (parse_user_record h b); ok (record p { user_record = some u }))
      else if h.code == b'T'
      then (do
        u ← map_err bad_body (parse_token_record h b)
        ok (record p { user_record = some u }))
      else if h.code == b'f'
      then ok (record p { file_records = records_of (parse_file_records b) })
      else if h.code == b'g'
      then (do
        g ← map_err bad_body (parse_g_stream_record (drop 8 b))
        ok (record p { g_stream_record = some g }))
      else if h.code == b'd' || h.code == b'U' || h.code == b'i'
      then with_map p b
      else if is_pass_through h.code
      then ok p
      else err unknown_type

  -- A packet that is not XML.
  unfoldable pub parse_binary : Bytes → Result PacketError (Packet Event)
  parse_binary b = elim (read_header b) [
    | none ↦ err no_header
    | some (h, _) ↦ if length b == h.plen then parse_body h b else err length_mismatch
  ]

  unfoldable pub parse_packet : Bytes → Result PacketError (Packet Event)
  parse_packet [] = err empty_packet
  parse_packet (c ∷ cs) =
      if c == b'<'
      then ok (record (bare zero_header (c ∷ cs)) { is_xml = true })
      else parse_binary (c ∷ cs)
