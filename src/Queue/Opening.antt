-- ===== src/Queue/Opening.antt =====
-- `openQueue`, `corruptSegmentPath` and `quarantineSegment` of queue.go. The disk with dque.NewOrOpen
-- and os.Rename, and the regular expression, are parameters.
pub mod Heals
use xrootd_monitoring_shovel.Base.{
  ℕ, zero, suc, List, [], ◌∷◌, ◌++◌, Option, none, some, Bytes, bytes, cut_last, eqb, if◌then◌else◌,
}
use xrootd_monitoring_shovel.Collector.Paths.{clean}

-- A queue, or the text of an error.
pub data Opened (Q : Type 0) : Type 0 where
  opened : Q → Opened Q
  failing : Bytes → Opened Q

-- The states W of the disk, dque.NewOrOpen, the renaming of a segment, which may fail, and the file
-- that corruptSegmentPattern finds in a text.
pub record Disk : Type 1 where
  pub W : Type 0
  pub Q : Type 0
  pub new_or_open : W → Opened Q
  pub quarantine_segment : Bytes → W → Option W
  pub find_segment : Bytes → Option Bytes

-- filepath.Dir
unfoldable pub directory : Bytes → Bytes
unfolding clean
directory path = elim (cut_last b'/' path) [
  | none ↦ bytes "."
  | some (front, name) ↦ clean (front ++ b'/' ∷ [])
]

-- `none` for the empty text.
unfoldable pub corrupt_segment_path : (Bytes → Option Bytes) → Bytes → Bytes → Option Bytes
unfolding directory clean
corrupt_segment_path find_segment message queue_dir = elim (find_segment message) [
  | none ↦ none
  | some found ↦
      if eqb (directory (clean found)) (clean queue_dir) then some (clean found) else none
]

-- The queue, or why it is not open: as many segments as allowed have been renamed, the error is
-- another one, or a segment cannot be renamed.
pub data Result (Q : Type 0) : Type 0 where
  ready : Q → Result Q
  gave_up : Bytes → Result Q
  other_error : Bytes → Result Q
  rename_failed : Bytes → Result Q

abbrev pub max_corrupt_segments : ℕ
max_corrupt_segments = 10

-- The loop. Its first argument is maxCorruptSegments less the attempt, and its last the segments
-- that have been renamed, the last first; it gives the result with these.
unfoldable pub open_loop :
    (disk : Disk) → ℕ → Bytes → disk.W → List Bytes → Result disk.Q × List Bytes
unfolding corrupt_segment_path
open_loop disk zero queue_dir w renamed = elim (disk.new_or_open w) [
  | opened q ↦ (ready q, renamed)
  | failing message ↦ (gave_up message, renamed)
]
open_loop disk (suc left) queue_dir w renamed = elim (disk.new_or_open w) [
  | opened q ↦ (ready q, renamed)
  | failing message ↦ elim (corrupt_segment_path disk.find_segment message queue_dir) [
    | none ↦ (other_error message, renamed)
    | some segment ↦ elim (disk.quarantine_segment segment w) [
      | none ↦ (rename_failed segment, renamed)
      | some w' ↦ open_loop disk left queue_dir w' (segment ∷ renamed)
    ]
  ]
]

unfoldable pub open_queue : (disk : Disk) → Bytes → disk.W → Result disk.Q × List Bytes
unfolding open_loop
open_queue disk queue_dir w = open_loop disk max_corrupt_segments queue_dir w []
