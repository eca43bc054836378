-- ===== src/Collector/Scitags.antt =====
-- collector/scitags.go: the registry of experiment and activity names. The document is what
-- json.Unmarshal reads, `none` if it makes an error; ints are words of 64 bits.
use xrootd_monitoring_shovel.Base.{
  ℕ, ◌-◌, ◌*◌, ◌%◌, ◌^◌, ◌||◌, List, [], ◌∷◌, Option, none, some, Bytes, ℤ, pos, negsuc, bit_or,
  ◌==◌, if◌then◌else◌,
}

pub record Experiment : Type 0 where
  pub exp_name : Bytes
  pub exp_id : ℕ
  pub activities : List (ℕ × Bytes)

pub record ScitagsDoc : Type 0 where
  pub experiments : List Experiment
  pub version : ℕ
  pub modified : Bytes

pub record ScitagsRegistry : Type 0 where
  pub experiments : List (ℕ × Bytes)
  pub activities : List (ℕ × Bytes)
  pub version : ℕ
  pub modified : Bytes

-- An int as a word of 64 bits.
abbrev pub to_uint64 : ℤ → ℕ
to_uint64 (pos n) = n % 2 ^ 64
to_uint64 (negsuc n) = 2 ^ 64 - 1 - n % 2 ^ 64

-- int64(expID)<<32 | int64(actID)
unfoldable pub activity_key : ℕ → ℕ → ℕ
activity_key exp_id act_id = bit_or (exp_id * 2 ^ 32 % 2 ^ 64) act_id

-- A read of a Go map gives "" for a missing key; the last entry written is the first found.
unfoldable pub name_of : ℕ → List (ℕ × Bytes) → Bytes
name_of k [] = []
name_of k ((j, v) ∷ m) = if j == k then v else name_of k m

load_activities : ℕ → List (ℕ × Bytes) → List (ℕ × Bytes) → List (ℕ × Bytes)
load_activities exp_id [] m = m
load_activities exp_id ((act_id, name) ∷ as') m =
    load_activities exp_id as' ((activity_key exp_id act_id, name) ∷ m)

load_experiments : List Experiment → ScitagsRegistry → ScitagsRegistry
unfolding load_activities
load_experiments [] r = r
load_experiments (e ∷ es) r = load_experiments es (
    if e.exp_id == 0 then r else record r {
      experiments = (e.exp_id, e.exp_name) ∷ r.experiments;
      activities = load_activities e.exp_id e.activities r.activities;
    })

pub data LoadError : Type 0 where
  bad_document no_experiments : LoadError

-- The error, if there is one, and the registry afterwards.
unfoldable pub load : Option ScitagsDoc → ScitagsRegistry → Option LoadError × ScitagsRegistry
unfolding load_experiments
load none r = (some bad_document, r)
load (some doc) r = elim doc.experiments [
  | [] ↦ (some no_experiments, r)
  | e ∷ es ↦ (
    none,
    load_experiments (e ∷ es) (record {
      experiments = [];
      activities = [];
      version = doc.version;
      modified = doc.modified;
    }),
  )
]

unfoldable pub experiment_name : ScitagsRegistry → ℕ → Bytes
experiment_name r exp_id = if exp_id == 0 then [] else name_of exp_id r.experiments

unfoldable pub activity_name : ScitagsRegistry → ℕ → ℕ → Bytes
activity_name r exp_id act_id =
    if exp_id == 0 || act_id == 0 then [] else name_of (activity_key exp_id act_id) r.activities
