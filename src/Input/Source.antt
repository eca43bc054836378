-- ===== src/Input/Source.antt =====
-- input/input.go: what the readers there share, a buffered channel to the program that they never
-- wait for, and the channel that stops them. Which branch a select takes if the send and the stop
-- are both ready is chosen by a flag.
pub mod Kept
use xrootd_monitoring_shovel.Base.{
  ℕ, Bool, true, false, ◌&&◌, ◌||◌, not, List, [], ◌∷◌, ◌++◌, length, ltb, if◌then◌else◌,
}

-- make(chan PacketWithAddr, 100)
abbrev pub packets_capacity : ℕ
packets_capacity = 100

module _ (A : Type 0) where
  -- The packets in the channel, those that the program has received, whether stopChan is closed, and
  -- whether the loop has not returned.
  pub record Source : Type 0 where
    pub buffered : List A
    pub received : List A
    pub stopping : Bool
    pub running : Bool

  -- New, and Start without an error.
  abbrev pub new_source : Source
  new_source = record { buffered = []; received = []; stopping = false; running = true }

  abbrev pub has_room : Source → Bool
  has_room s = ltb (length s.buffered) packets_capacity

  -- The program receives from the channel.
  unfoldable pub receive : Source → Source
  receive s = elim s.buffered [
    | [] ↦ s
    | p ∷ ps ↦ record s { buffered = ps; received = s.received ++ p ∷ [] }
  ]

  -- close(stopChan)
  unfoldable pub stop_source : Source → Source
  stop_source s = record s { stopping = true }

  -- The loop has seen stopChan closed.
  unfoldable pub returns : Source → Source
  returns s = record s { running = false }

  -- The select of the send; the flag is whether it prefers the stop.
  unfoldable pub offer : Bool → A → Source → Source
  unfolding returns
  offer prefers_stop p s =
      if s.stopping && (prefers_stop || not (has_room s))
      then returns s
      else if has_room s
      then record s { buffered = s.buffered ++ p ∷ [] }
      else s
