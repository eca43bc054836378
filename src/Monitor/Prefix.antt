-- ===== src/Monitor/Prefix.antt =====
-- `ComputePrefix` of metrics/xrootd_metrics.go.
use xrootd_monitoring_shovel.Base.{
  ℕ, suc, not, ◌&&◌, List, [], ◌∷◌, ◌++◌, Bytes, bytes, eqb, split, ltb, take, drop, ◌==◌, length,
  if◌then◌else◌,
}
use xrootd_monitoring_shovel.Collector.Paths.{clean}

-- The last index that the segments of the path and of the pattern have in common, counted from
-- `idx`, if it is beyond `deepest`.
match_from : ℕ → ℕ → List Bytes → List Bytes → ℕ
match_from deepest idx (s ∷ segments) (pattern ∷ patterns) =
    let rest = match_from (if ltb deepest idx then idx else deepest) (suc idx) segments patterns in
    if not (eqb s pattern) && not (eqb pattern (bytes "*")) then deepest else rest
match_from deepest idx _ _ = deepest

deepest_of : ℕ → List Bytes → List (List Bytes) → ℕ
unfolding match_from
deepest_of deepest segments [] = deepest
deepest_of deepest segments (paths ∷ more) =
    deepest_of
      (if ltb (length segments) (length paths)
        then deepest
        else match_from deepest 0 segments paths)
      segments more

slashed : List Bytes → Bytes
slashed [] = []
slashed (s ∷ ss) = b'/' ∷ (s ++ slashed ss)

-- The argument in front is monitorPaths.
unfoldable pub compute_prefix : List (List Bytes) → Bytes → Bytes
unfolding deepest_of slashed clean
compute_prefix [] input = bytes "/"
compute_prefix (paths ∷ more) input =
    let segments = split (clean input) b'/' in
    let deepest = deepest_of 0 segments (paths ∷ more) in
    if deepest == 0 then bytes "/" else clean (slashed (take deepest (drop 1 segments)))
