-- ===== src/Collector/Filter/Rules.antt =====
-- What the filter's rules come to.
use xrootd_monitoring_shovel.Base.{
  ◌≡◌, ◌≢◌, ◌↔◌, ◌⊎◌, inl, inr, refl, true, false, List, [], ◌∷◌, Bytes, is_empty, eqb_iff,
  has_prefix, trim_space, arith, Bool-cases,
}
use xrootd_monitoring_shovel.Collector.GoLib.{GoLib, to_lower}
use xrootd_monitoring_shovel.Collector.Types.{CollectorRecord}
use xrootd_monitoring_shovel.Collector.Filter.{
  FilterConfig, any_prefix, normal, wlcg_vo, matches_wlcg_with_rules, drop_vo, should_drop,
}

-- One of the listed texts passes.
abbrev pub Some : (Bytes → Type 0) → List Bytes → Type 0
Some P [] = ⊥
Some P (x ∷ xs) = P x ⊎ Some P xs

-- A prefix without spaces around it that is not empty and that the file name has.
abbrev pub IsUnder : Bytes → Bytes → Type 0
IsUnder filename p = (trim_space p ≢ []) × (has_prefix filename (trim_space p) ≡ true)

is_empty-false : (s : Bytes) → (is_empty s ≡ false) ↔ (s ≢ [])
is_empty-false [] = ((λ e. absurd (cc e)), (λ h. absurd (h refl)))
is_empty-false (c ∷ cs) = ((λ e. λ f. cc), (λ h. refl))

any_prefix_iff :
    (filename : Bytes) (ps : List Bytes)
    → (any_prefix filename ps ≡ true) ↔ Some (IsUnder filename) ps
unfolding any_prefix
any_prefix_iff filename [] = ((λ e. absurd (cc e)), (λ h. absurd h))
any_prefix_iff filename (p ∷ ps) =
    let (to, from) = any_prefix_iff filename ps in
    let (filled, is_filled) = is_empty-false (trim_space p) in
    ((λ e. ground (arith, to, filled)), (λ h. ground (arith, from, is_filled)))

module _ (lib : GoLib) where
  normal-nil : normal lib [] ≡ []
  unfolding normal to_lower trim_space
  normal-nil = refl

  drop_vo-wlcg_vo :
      (record_vo : Bytes) (vos : List Bytes)
      → record_vo ≢ []
      → drop_vo lib record_vo vos ≡ wlcg_vo lib record_vo vos
  unfolding drop_vo wlcg_vo
  drop_vo-wlcg_vo record_vo [] h = refl
  drop_vo-wlcg_vo record_vo ([] ∷ vos) h =
      ground (arith, drop_vo-wlcg_vo record_vo vos h, normal-nil, eqb_iff [] record_vo)
  drop_vo-wlcg_vo record_vo ((c ∷ cs) ∷ vos) h = ground (arith, drop_vo-wlcg_vo record_vo vos h)

  wlcg_vo_iff :
      (record_vo : Bytes) (vos : List Bytes)
      → (wlcg_vo lib record_vo vos ≡ true) ↔ Some (λ vo. normal lib vo ≡ record_vo) vos
  unfolding wlcg_vo
  wlcg_vo_iff record_vo [] = ((λ e. absurd (cc e)), (λ h. absurd h))
  wlcg_vo_iff record_vo (vo ∷ vos) =
      let (to, from) = wlcg_vo_iff record_vo vos in
      let (same, is_same) = eqb_iff (normal lib vo) record_vo in
      ((λ e. ground (arith, to, same)), (λ h. ground (arith, from, is_same)))

  -- The VO rule and the prefix rule, on a list of VOs and a list of prefixes.
  abbrev pub IsListed : CollectorRecord → List Bytes → List Bytes → Type 0
  IsListed r vos prefixes =
      ((normal lib r.user.vo ≢ []) × Some (λ vo. normal lib vo ≡ normal lib r.user.vo) vos)
      ⊎ Some (IsUnder (trim_space r.file.filename)) prefixes

  -- The rules accept a record exactly if its VO, lower-cased and without spaces around it, is not
  -- empty and is that of one of the listed VOs, or its file name has one of the listed prefixes that
  -- is not empty, both without spaces around them.
  pub matches_wlcg_with_rules_iff :
      (r : CollectorRecord) (vos prefixes : List Bytes)
      → (matches_wlcg_with_rules lib r vos prefixes ≡ true) ↔ IsListed r vos prefixes
  unfolding matches_wlcg_with_rules
  matches_wlcg_with_rules_iff r vos prefixes =
      let (vo_to, vo_from) = wlcg_vo_iff (normal lib r.user.vo) vos in
      let (prefix_to, prefix_from) = any_prefix_iff (trim_space r.file.filename) prefixes in
      let (filled, is_filled) = is_empty-false (normal lib r.user.vo) in
      (
        (λ e. ground (arith, vo_to, prefix_to, filled)),
        (λ h. ground (arith, vo_from, prefix_from, is_filled)),
      )

  -- The filter drops exactly the records that the rules for the WLCG exchange accept with its lists
  -- of VOs and prefixes to drop, though it passes over empty VOs in the list and they do not.
  pub should_drop-matches_wlcg_with_rules :
      (f : FilterConfig) (r : CollectorRecord)
      → (should_drop lib f r).0 ≡ matches_wlcg_with_rules lib r f.drop_vos f.drop_path_prefixes
  unfolding should_drop matches_wlcg_with_rules
  should_drop-matches_wlcg_with_rules f r = elim (Bool-cases (is_empty (normal lib r.user.vo))) [
    | inl none ↦ rw none (ground arith)
    | inr some ↦ rw some (
        ground
          (arith, drop_vo-wlcg_vo (normal lib r.user.vo) f.drop_vos ((is_empty-false _).0 some)))
  ]
