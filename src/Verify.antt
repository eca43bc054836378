-- ===== src/Verify.antt =====
-- verify.go: `VerifyPacket`, the check of a datagram in shoveling mode.
pub mod Agrees
use xrootd_monitoring_shovel.Base.{
  ℕ, ◌+◌, ◌*◌, Bool, true, false, List, [], ◌∷◌, Bytes, length, ◌==◌, if◌then◌else◌,
}

-- A datagram of eight bytes or more, by its first four bytes; any shorter one is dropped.
unfoldable pub verify_packet : Bytes → Bool
verify_packet (code ∷ pseq ∷ l1 ∷ l0 ∷ s3 ∷ s2 ∷ s1 ∷ s0 ∷ rest) =
    if code == b'<'
    then true
    else length (code ∷ pseq ∷ l1 ∷ l0 ∷ s3 ∷ s2 ∷ s1 ∷ s0 ∷ rest) == l1 * 256 + l0
verify_packet _ = false
