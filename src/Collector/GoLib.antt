-- ===== src/Collector/GoLib.antt =====
-- Functions of Go's library that are parameters of the models of the collector, and strings.ToLower.
use xrootd_monitoring_shovel.Base.{
  ◌+◌, Bool, true, ◌&&◌, [], ◌∷◌, Option, Bytes, leb, ltb, if◌then◌else◌,
}

-- What net.ParseIP finds in a text: nothing, an address for which To4 gives an IPv4 address, with
-- the text of that, or another IPv6 address.
pub data ParsedIp : Type 0 where
  not_ip : ParsedIp
  v4 : Bytes → ParsedIp
  v6 : ParsedIp

-- net.ParseIP, the host that net.SplitHostPort returns if it makes no error, and strings.ToLower on
-- texts that are not ASCII.
pub record GoLib : Type 0 where
  pub parse_ip : Bytes → ParsedIp
  pub split_host_port : Bytes → Option Bytes
  pub lower_wide : Bytes → Bytes

is_ascii : Bytes → Bool
is_ascii [] = true
is_ascii (c ∷ cs) = ltb c 0x80 && is_ascii cs

lower_ascii : Bytes → Bytes
lower_ascii [] = []
lower_ascii (c ∷ cs) = (if leb b'A' c && leb c b'Z' then c + 32 else c) ∷ lower_ascii cs

-- strings.ToLower
unfoldable pub to_lower : GoLib → Bytes → Bytes
unfolding is_ascii lower_ascii
to_lower lib s = if is_ascii s then lower_ascii s else lib.lower_wide s
