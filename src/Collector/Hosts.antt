-- ===== src/Collector/Hosts.antt =====
-- Host and address texts of collector/correlator.go and collector/enrichment.go.
use xrootd_monitoring_shovel.Base.{
  ℕ, Bool, true, false, not, ◌&&◌, ◌||◌, List, [], ◌∷◌, Option, none, some, Bytes, is_empty,
  cut_last, ℤ, pos, atoi, split, join, last_two, leb, ◌==◌, if◌then◌else◌,
}
use xrootd_monitoring_shovel.Collector.GoLib.{ParsedIp, not_ip, v4, v6, GoLib}

abbrev is_ip : ParsedIp → Bool
is_ip not_ip = false
is_ip _ = true

abbrev starts_ip : ℕ → Bool
starts_ip c = c == b'[' || c == b':' || c == b'f' || leb b'0' c && leb c b'9' || c == b'.'

unfoldable pub is_ip_pattern : Bytes → Bool
is_ip_pattern [] = false
is_ip_pattern (c ∷ _) = starts_ip c

abbrev is_bracket : ℕ → Bool
is_bracket c = c == b'[' || c == b']'

drop_brackets : Bytes → Bytes
drop_brackets [] = []
drop_brackets (c ∷ cs) = if is_bracket c then drop_brackets cs else c ∷ cs

drop_brackets_back : Bytes → Bytes
drop_brackets_back [] = []
drop_brackets_back (c ∷ cs) = elim (drop_brackets_back cs) [
  | [] ↦ if is_bracket c then [] else c ∷ []
  | d ∷ ds ↦ c ∷ d ∷ ds
]

-- strings.Trim(s, "[]"), and then what stands before the last '%'.
unfoldable pub without_zone : Bytes → Bytes
unfolding drop_brackets drop_brackets_back
without_zone s =
    let trimmed = drop_brackets_back (drop_brackets s) in
    elim (cut_last b'%' trimmed) [ none ↦ trimmed | some (a, _) ↦ a ]

contains : ℕ → Bytes → Bool
contains c [] = false
contains c (x ∷ xs) = x == c || contains c xs

module _ (lib : GoLib) where
  -- The IPv4 part behind the last colon of a dotted IPv6 text.
  dotted : Bytes → Bytes
  unfolding contains
  dotted host =
      if contains b'.' host
      then (elim (cut_last b':' host) [
        | none ↦ host
        | some (_, tail) ↦ elim (lib.parse_ip tail) [ v4 text ↦ text | _ ↦ host ]
      ])
      else host

  unfoldable pub extract_ip_from_host : Bytes → Bytes
  unfolding without_zone dotted
  extract_ip_from_host host =
      if is_empty host
      then []
      else let bare = without_zone host in
        elim (lib.parse_ip bare) [ not_ip ↦ bare | v4 text ↦ text | v6 ↦ dotted bare ]

  -- A port number in range.
  abbrev is_port : Option ℤ → Bool
  is_port (some (pos n)) = leb n 65535
  is_port _ = false

  -- An address of several colons whose last part is a port and whose first part is an IP.
  legacy_host : Bytes → Bytes
  unfolding without_zone contains
  legacy_host remote_addr = elim (cut_last b':' remote_addr) [
    | none ↦ remote_addr
    | some (host, port) ↦
        if contains b':' host
          && not (is_empty port)
          && is_port (atoi port)
          && is_ip (lib.parse_ip (without_zone host))
        then host
        else remote_addr
  ]

  unfoldable pub extract_host_from_remote_addr : Bytes → Bytes
  unfolding legacy_host
  extract_host_from_remote_addr remote_addr =
      if is_empty remote_addr then [] else (elim (lib.split_host_port remote_addr) [
        | some host ↦ host
        | none ↦
            if is_ip (lib.parse_ip (without_zone remote_addr))
            then remote_addr
            else legacy_host remote_addr
      ])

domain_of : List Bytes → Bytes
domain_of (p ∷ q ∷ ps) = join b'.' (last_two (p ∷ q ∷ ps))
domain_of _ = []

-- The last two labels of a host name that has two.
unfoldable pub extract_domain_from_hostname : Bytes → Bytes
unfolding domain_of
extract_domain_from_hostname hostname = domain_of (split hostname b'.')
