-- ===== src/Monitor.antt =====
-- metrics/xrootd_metrics.go: the Prometheus metrics that the shoveler makes of the packets sent to
-- its own monitoring port. HandlePacket and its cases.
pub mod Memory
pub mod State
pub mod Prefix
pub mod Users
pub mod Files
pub mod Loop
pub mod Summary
pub mod Logins
pub mod SameFiles
pub mod NoPath
pub mod Transfers
pub mod Closes
pub mod Rounds
pub mod Readings
use xrootd_monitoring_shovel.Base.{
  ℕ, ◌+◌, ◌*◌, ◌==◌, Bool, false, ◌&&◌, List, [], ◌∷◌, Option, none, some, Bytes, ltb, length, drop,
  if◌then◌else◌,
}
use xrootd_monitoring_shovel.Parser.Wire.{u16, u32}
use Memory.{Packet, piece, plus32, minus16}
use State.{Library, Monitor, Outcome, finished, failed, panicked}
use Prefix.{compute_prefix}
use Users.{get_sid_rest, user_of_auth}
use Files.{empty_file}
use Loop.{handle_f_stream}
use Summary.{handle_summary_packet}

-- The first byte is '<'.
unfoldable pub starts_xml : Bytes → Bool
starts_xml [] = false
starts_xml (c ∷ r) = c == b'<'

module _ (lib : Library) where
  -- Case 'd'; the first argument is monitorPaths.
  unfoldable pub handle_dictionary :
      List (List Bytes) → Packet → Monitor lib → Outcome (Monitor lib)
  unfolding get_sid_rest compute_prefix empty_file
  handle_dictionary paths p s =
      if ltb (length p.content) 12 then failed s else elim (u32 (drop 8 p.content)) [
        | none ↦ panicked
        | some (id, info) ↦ elim (get_sid_rest info) [
          | none ↦ failed s
          | some (user, rest) ↦ finished (record s {
            transfers =
                lib.files.set id
                  (record empty_file { user_id = user; path = compute_prefix paths rest })
                  s.transfers;
          })
        ]
      ]

  -- Case 'u' of a packet with the given Plen
  unfoldable pub handle_login : Packet → ℕ → Monitor lib → Outcome (Monitor lib)
  unfolding piece get_sid_rest user_of_auth
  handle_login p plen s = elim (piece p 12 (plus32 12 (minus16 plen 12))) [
    | none ↦ panicked
    | some info ↦ elim (get_sid_rest info) [
      | none ↦ failed s
      | some (user, auth) ↦
          finished (record s { sessions = lib.users.set user (user_of_auth auth) s.sessions })
    ]
  ]

  -- The switch on the packet's code
  unfoldable pub handle_code :
      ℕ → List (List Bytes) → Packet → ℕ → ℕ → Monitor lib → Outcome (Monitor lib)
  unfolding handle_dictionary handle_f_stream handle_login
  handle_code fuel paths p code plen s =
      if code == b'd'
      then handle_dictionary paths p s
      else if code == b'f'
      then handle_f_stream lib fuel p plen s
      else if code == b'u'
      then handle_login p plen s
      else finished s

  -- HandlePacket. The fuel bounds the rounds of the loop over an f-stream's records.
  unfoldable pub handle_packet :
      ℕ → List (List Bytes) → Packet → Monitor lib → Outcome (Monitor lib)
  unfolding starts_xml handle_summary_packet handle_code
  handle_packet fuel paths p s =
      if starts_xml p.content
      then handle_summary_packet lib p s
      else if ltb (length p.content) 8
      then failed s
      else elim p.content [
        | code ∷ pseq ∷ high ∷ low ∷ stod ↦ handle_code fuel paths p code (high * 256 + low) s
        | _ ↦ panicked
      ]
