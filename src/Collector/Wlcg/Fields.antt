-- ===== src/Collector/Wlcg/Fields.antt =====
-- What the conversion reads from the texts of a record: the CRAB fields of the appinfo, and the user
-- of the DN.
use xrootd_monitoring_shovel.Base.{
  ℕ, ◌≡◌, ◌==◌, refl, ap, ◌∙◌, [], ◌∷◌, ◌++◌, append_assoc, append-nil, Bytes, Lacks, split,
  split_all, arith, Bool-cases, inl, inr,
}
use xrootd_monitoring_shovel.Collector.Types.{CollectorRecord}
use xrootd_monitoring_shovel.Collector.Wlcg.{
  WlcgMetadata, Context, last_part, crab_parts, crab_of, convert_to_wlcg,
}

split_all-append :
    (c : ℕ) (part a b : Bytes)
    → Lacks c a
    → split_all c part (a ++ c ∷ b) ≡ (part ++ a) ∷ split_all c [] b
unfolding split_all
split_all-append c part [] b h = ground (arith, append-nil part)
split_all-append c part (x ∷ a) b h =
    ground (arith, split_all-append c (part ++ x ∷ []) a b h.1, append_assoc part (x ∷ []) a)

split_all-Lacks : (c : ℕ) (part a : Bytes) → Lacks c a → split_all c part a ≡ (part ++ a) ∷ []
unfolding split_all
split_all-Lacks c part [] h = ground (arith, append-nil part)
split_all-Lacks c part (x ∷ a) h =
    ground (arith, split_all-Lacks c (part ++ x ∷ []) a h.1, append_assoc part (x ∷ []) a)

-- There is always a part.
last_part-cons :
    (c : ℕ) (p part s : Bytes) → last_part (p ∷ split_all c part s) ≡ last_part (split_all c part s)
unfolding split_all last_part
last_part-cons c p part [] = refl
last_part-cons c p part (x ∷ s) = elim (Bool-cases (x == c)) [
  | inl t ↦ ground arith
  | inr f ↦ ground (arith, last_part-cons c p (part ++ x ∷ []) s)
]

last_part-one : (w : Bytes) → last_part (w ∷ []) ≡ w
unfolding last_part
last_part-one w = refl

last_part-split_all :
    (c : ℕ) (part s w : Bytes) → Lacks c w → last_part (split_all c part (s ++ c ∷ w)) ≡ w
unfolding split_all
last_part-split_all c part [] w h =
    ground
      (arith, last_part-cons c part [] w, ap last_part (split_all-Lacks c [] w h), last_part-one w)
last_part-split_all c part (x ∷ s) w h = elim (Bool-cases (x == c)) [
  | inl t ↦ ground (arith, last_part-cons c part [] (s ++ c ∷ w), last_part-split_all c [] s w h)
  | inr f ↦ ground (arith, last_part-split_all c (part ++ x ∷ []) s w h)
]

crab_of-joined :
    (id url workflow retry : Bytes)
    → Lacks b'_' id
    → Lacks b'_' (url ++ b'/' ∷ workflow)
    → Lacks b'_' retry
    → Lacks b'/' workflow
    → crab_of (id ++ b'_' ∷ ((url ++ b'/' ∷ workflow) ++ b'_' ∷ retry)) ≡ (id, workflow, retry)
unfolding crab_of crab_parts split
crab_of-joined id url workflow retry hi hu hr hw =
    let parts =
      split_all-append b'_' [] id ((url ++ b'/' ∷ workflow) ++ b'_' ∷ retry) hi
      ∙ ap (◌∷◌ id) (split_all-append b'_' [] (url ++ b'/' ∷ workflow) retry hu)
      ∙ ap (λ t. id ∷ (url ++ b'/' ∷ workflow) ∷ t) (split_all-Lacks b'_' [] retry hr) in
    ap crab_parts parts ∙ ap (λ t. (id, t, retry)) (last_part-split_all b'/' [] url workflow hw)

-- The appinfo of CRAB, with an underscore behind the id and before the retry count, and the workflow
-- behind the last slash: the three fields of the record are these.
pub convert_to_wlcg-crab :
    (context : Context) (r : CollectorRecord) (meta : WlcgMetadata) (id url workflow retry : Bytes)
    → Lacks b'_' id
    → Lacks b'_' (url ++ b'/' ∷ workflow)
    → Lacks b'_' retry
    → Lacks b'/' workflow
    → r.user.app_info ≡ id ++ b'_' ∷ ((url ++ b'/' ∷ workflow) ++ b'_' ∷ retry)
    → ((convert_to_wlcg context r meta).crab_id ≡ id)
      × ((convert_to_wlcg context r meta).crab_workflow ≡ workflow)
      × ((convert_to_wlcg context r meta).crab_retry ≡ retry)
unfolding convert_to_wlcg
convert_to_wlcg-crab context r meta id url workflow retry hi hu hr hw e =
    rw (e, crab_of-joined id url workflow retry hi hu hr hw) (refl, refl, refl)
