-- ===== src/Collector/Filter.antt =====
-- collector/filter.go: the rules by VO and by path prefix that route a record to the WLCG exchange, or
-- drop it.
pub mod Rules
use xrootd_monitoring_shovel.Base.{
  ◌≡◌, Bool, true, false, not, ◌&&◌, ◌||◌, List, [], ◌∷◌, Bytes, bytes, is_empty, eqb, has_prefix,
  trim_space, if◌then◌else◌,
}
use xrootd_monitoring_shovel.Collector.GoLib.{GoLib, to_lower}
use xrootd_monitoring_shovel.Collector.Types.{CollectorRecord}

-- The fields of the Correlator that the filter reads.
pub record FilterConfig : Type 0 where
  pub wlcg_disabled : Bool
  pub wlcg_vos : List Bytes
  pub wlcg_path_prefixes : List Bytes
  pub drop_vos : List Bytes
  pub drop_path_prefixes : List Bytes

-- The loop over the prefixes.
unfoldable pub any_prefix : Bytes → List Bytes → Bool
any_prefix filename [] = false
any_prefix filename (p ∷ ps) =
    let prefix = trim_space p in
    not (is_empty prefix) && has_prefix filename prefix || any_prefix filename ps

module _ (lib : GoLib) where
  -- strings.ToLower(strings.TrimSpace(s))
  unfoldable pub normal : Bytes → Bytes
  normal s = to_lower lib (trim_space s)

  -- The loop over the VOs of `matchesWLCGWithRules`.
  unfoldable pub wlcg_vo : Bytes → List Bytes → Bool
  wlcg_vo record_vo [] = false
  wlcg_vo record_vo (vo ∷ vos) = eqb (normal vo) record_vo || wlcg_vo record_vo vos

  unfoldable pub matches_wlcg_with_rules : CollectorRecord → List Bytes → List Bytes → Bool
  unfolding wlcg_vo any_prefix
  matches_wlcg_with_rules r vos prefixes =
      let record_vo = normal r.user.vo in
      not (is_empty record_vo) && wlcg_vo record_vo vos
      || any_prefix (trim_space r.file.filename) prefixes

  unfoldable pub matches_wlcg : FilterConfig → CollectorRecord → Bool
  unfolding matches_wlcg_with_rules
  matches_wlcg f r =
      if f.wlcg_disabled then false else matches_wlcg_with_rules r f.wlcg_vos f.wlcg_path_prefixes

  -- The loop over the VOs of `shouldDrop`, which passes over empty ones.
  unfoldable pub drop_vo : Bytes → List Bytes → Bool
  drop_vo record_vo [] = false
  drop_vo record_vo (vo ∷ vos) =
      not (is_empty vo) && eqb (normal vo) record_vo || drop_vo record_vo vos

  -- Whether to drop the record, and the reason.
  unfoldable pub should_drop : FilterConfig → CollectorRecord → Bool × Bytes
  unfolding drop_vo any_prefix
  should_drop f r =
      let record_vo = normal r.user.vo in
      if not (is_empty record_vo) && drop_vo record_vo f.drop_vos
      then (true, bytes "vo")
      else if any_prefix (trim_space r.file.filename) f.drop_path_prefixes
      then (true, bytes "path_prefix")
      else (false, [])
