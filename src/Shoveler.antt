-- ===== src/Shoveler.antt =====
-- cmd/shoveler/main.go: what the shoveling mode does with a packet, from UDP or from a file. Sockets
-- are parameters: a connection is a value of any type, and a destination that net.Dial refuses is
-- a nil one.
pub mod Delivers
pub mod Received
use xrootd_monitoring_shovel.Base.{
  Bool, true, false, not, ◌&&◌, List, [], ◌∷◌, Option, none, some, Bytes, is_empty, if◌then◌else◌,
}
use xrootd_monitoring_shovel.Verify.{verify_packet}
use xrootd_monitoring_shovel.Packaging.{UdpAddr, Encoders, IpMapping, package_udp}
use xrootd_monitoring_shovel.Input.Rabbit.{PacketWithAddr}

-- The fields of Config that the shoveling mode reads, with ShovelerVersion.
pub record ShovelerConfig : Type 0 where
  pub verify : Bool
  pub version : Bytes
  pub mapping : IpMapping

module _ (Conn : Type 0) where
  -- The destinations: one that cannot be dialled is there as nil.
  unfoldable pub dial_all : (Bytes → Option Conn) → List Bytes → List (Option Conn)
  dial_all dial [] = []
  dial_all dial (d ∷ ds) = dial d ∷ dial_all dial ds

  -- The writes to the destinations, and whether one of them is nil, which panics.
  unfoldable pub forward : Bytes → List (Option Conn) → List (Conn × Bytes) × Bool
  forward msg [] = ([], false)
  forward msg (none ∷ cs) = ([], true)
  forward msg (some c ∷ cs) = let (writes, panics) = forward msg cs in ((c, msg) ∷ writes, panics)

  -- What becomes of a packet: dropped by the check, or enqueued and then forwarded; or a panic
  -- before it is enqueued.
  pub data Shoveled : Type 0 where
    dropped panicked : Shoveled
    enqueued : Bytes → List (Conn × Bytes) × Bool → Shoveled

  module _ (enc : Encoders) (config : ShovelerConfig) where
    abbrev pub is_refused : Bytes → Bool
    is_refused packet = config.verify && not (verify_packet packet)

    -- A round of runShovelingModeUDP.
    unfoldable pub shovel_udp : List (Option Conn) → Bytes → UdpAddr → Shoveled
    unfolding forward
    shovel_udp destinations packet remote =
        if is_refused packet
        then dropped
        else (let msg = package_udp enc packet remote config.version config.mapping in
            enqueued msg (forward msg destinations))

    -- A round of runShovelingModeFile; the first argument is net.ResolveUDPAddr. PackageUdp reads the
    -- port of a nil address.
    unfoldable pub shovel_file : (Bytes → Option UdpAddr) → PacketWithAddr → Shoveled
    shovel_file resolve p =
        if is_refused p.content
        then dropped
        else (elim (if is_empty p.remote_addr then none else resolve p.remote_addr) [
          | none ↦ panicked
          | some remote ↦
              enqueued (package_udp enc p.content remote config.version config.mapping) ([], false)
        ])
