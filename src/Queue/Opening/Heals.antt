-- ===== src/Queue/Opening/Heals.antt =====
-- The queue opens past corrupt segments, and renames nothing but files of its own directory.
use xrootd_monitoring_shovel.Base.{ℕ, suc, ◌≡◌, List, [], ◌∷◌, some, Bytes}
use xrootd_monitoring_shovel.Collector.Paths.{clean}
use xrootd_monitoring_shovel.Queue.Opening.{Disk, opened, failing, directory, corrupt_segment_path}

-- Every file of the list lies directly in the directory.
abbrev pub LieIn : Bytes → List Bytes → Type 0
LieIn queue_dir [] = Unit
LieIn queue_dir (f ∷ fs) = (directory f ≡ clean queue_dir) × LieIn queue_dir fs

-- With a number of corrupt segments: without any the queue opens, and else the error is about one of
-- its directory, whose renaming leaves one less.
pub record Heals (disk : Disk) (queue_dir : Bytes) : Type 0 where
  pub corrupt : disk.W → ℕ
  pub opens : (w : disk.W) → corrupt w ≡ 0 → (q : disk.Q) × (disk.new_or_open w ≡ opened q)
  pub fails :
      (w : disk.W) (n : ℕ)
      → corrupt w ≡ suc n
      → (message segment : Bytes) × (w' : disk.W) × (disk.new_or_open w ≡ failing message)
        × (corrupt_segment_path disk.find_segment message queue_dir ≡ some segment)
        × (disk.quarantine_segment segment w ≡ some w')
        × (corrupt w' ≡ n)
