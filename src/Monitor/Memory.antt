-- ===== src/Monitor/Memory.antt =====
-- Slices of a packet of metrics/xrootd_metrics.go. The packet is a slice of a buffer of 65536
-- bytes: an index is checked against its length, a slice expression only against its capacity.
use xrootd_monitoring_shovel.Base.{
  ℕ, ◌+◌, ◌-◌, ◌%◌, ◌++◌, ◌&&◌, Option, none, some, Bytes, leb, ltb, length, take, drop,
  if◌then◌else◌,
}
use xrootd_monitoring_shovel.Parser.Wire.{◌>>=◌, u32, u64}

-- The bytes of the packet, and those behind it in the buffer, which are left from earlier packets.
pub record Packet : Type 0 where
  pub content : Bytes
  pub behind : Bytes

-- packet[low:high]; `none` is a panic.
unfoldable pub piece : Packet → ℕ → ℕ → Option Bytes
piece p low high =
    let memory = p.content ++ p.behind in
    if leb low high && leb high (length memory)
    then some (take (high - low) (drop low memory))
    else none

-- a + b and a - b of uint32, and a - b of uint16 and uint64
abbrev pub plus32 : ℕ → ℕ → ℕ
plus32 a b = (a + b) % 0x100000000

abbrev pub minus16 : ℕ → ℕ → ℕ
minus16 a b = (a + 0x10000 - b) % 0x10000

abbrev pub minus32 : ℕ → ℕ → ℕ
minus32 a b = (a + 0x100000000 - b) % 0x100000000

abbrev pub minus64 : ℕ → ℕ → ℕ
minus64 a b = (a + 0x10000000000000000 - b) % 0x10000000000000000

-- uint32(x) of an int16 that is given by its word
abbrev pub widen : ℕ → ℕ
widen w = if ltb w 0x8000 then w else w + 0xffff0000

abbrev first_of : Option (ℕ × Bytes) → Option ℕ
first_of none = none
first_of (some (n, r)) = some n

-- binary.BigEndian.Uint32 and Uint64 of packet[low:high]
unfoldable pub word32 : Packet → ℕ → ℕ → Option ℕ
unfolding piece u32
word32 p low high = do b ← piece p low high; first_of (u32 b)

unfoldable pub word64 : Packet → ℕ → ℕ → Option ℕ
unfolding piece u64
word64 p low high = do b ← piece p low high; first_of (u64 b)
