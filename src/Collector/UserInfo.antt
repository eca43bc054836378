-- ===== src/Collector/UserInfo.antt =====
-- `parseUserInfo` and `parseEAInfo` of collector/correlator.go, which read the same texts as the
-- parser's functions in another way.
pub mod Agrees
use xrootd_monitoring_shovel.Base.{
  ℕ, ◌≡◌, Bool, true, false, List, [], ◌∷◌, ◌++◌, Option, none, some, Bytes, bytes, is_empty, eqb,
  cut, ℤ, pos, atoi_value, all_digits, only_digits, number_below, split, if◌then◌else◌,
}
use xrootd_monitoring_shovel.Parser.Records.{UserInfo}

-- The protocol in front of the first slash, and the rest.
split_protocol : Bytes → Bytes × Bytes
split_protocol s = elim (cut b'/' s) [ none ↦ ([], s) | some (p, r) ↦ (p, r) ]

-- `pid:sid`; both are 0 without a colon.
split_pid_sid : Bytes → ℤ × ℤ
split_pid_sid s = elim (cut b':' s) [
  | none ↦ (pos 0, pos 0)
  | some (p, r) ↦ (atoi_value p, atoi_value r)
]

-- `none` is an error: there is no at sign, or no dot before it.
unfoldable pub parse_user_info : Bytes → Option UserInfo
unfolding split_protocol split_pid_sid
parse_user_info s = elim (cut b'@' s) [
  | none ↦ none
  | some (user_part, host) ↦ elim (cut b'.' (split_protocol user_part).1) [
    | none ↦ none
    | some (username, pid_sid) ↦ some (record {
      protocol = (split_protocol user_part).0;
      username = username;
      pid = (split_pid_sid pid_sid).0;
      sid = (split_pid_sid pid_sid).1;
      host = host;
    })
  ]
]

-- udid, experimentID, activityID
pub record EaInfo : Type 0 where
  pub udid : ℕ
  pub experiment_id : ℤ
  pub activity_id : ℤ

-- strconv.ParseUint(s, 10, 32)
parse_uint32 : Bytes → Option ℕ
parse_uint32 s = number_below 0x100000000 (only_digits s)

assign_ea : EaInfo → Bytes → Bytes → EaInfo
unfolding parse_uint32
assign_ea i k v =
    if eqb k (bytes "Uc")
    then (elim (parse_uint32 v) [ none ↦ i | some n ↦ record i { udid = n } ])
    else if eqb k (bytes "Ec")
    then record i { experiment_id = atoi_value v }
    else if eqb k (bytes "Ac")
    then record i { activity_id = atoi_value v }
    else i

assign_ea_parts : EaInfo → List Bytes → EaInfo
unfolding assign_ea
assign_ea_parts i [] = i
assign_ea_parts i (part ∷ parts) =
    assign_ea_parts (elim (cut b'=' part) [ none ↦ i | some (k, v) ↦ assign_ea i k v ]) parts

unfoldable pub parse_ea_info : Bytes → EaInfo
unfolding assign_ea_parts
parse_ea_info s =
    assign_ea_parts (record { udid = 0; experiment_id = pos 0; activity_id = pos 0 }) (split s b'&')
