-- ===== src/Collector/State.antt =====
-- collector/state.go: `StateMap`, a map whose entries expire. Each method holds the lock for its
-- whole run, so it is a function of the map and of the time, in nanoseconds, that time.Now returns
-- in it. A maximum of zero stands for every maximum that is not positive: no limit.
pub mod View
pub mod Invariant
use xrootd_monitoring_shovel.Base.{
  ℕ, ◌+◌, ◌-◌, ◌≡◌, Bool, true, false, not, ◌&&◌, List, [], ◌∷◌, Option, none, some, Bytes, Assoc,
  lookup, insert, remove, keep, length, ltb, leb, if◌then◌else◌,
}

pub record StateEntry (V : Type 0) : Type 0 where
  pub key : Bytes
  pub value : V
  pub expires_at : ℕ

pub record StateMap (V : Type 0) : Type 0 where
  pub entries : Assoc (StateEntry V)
  pub ttl : ℕ
  pub max_entries : ℕ

module _ {V : Type 0} where
  abbrev pub new_state_map : ℕ → ℕ → StateMap V
  new_state_map ttl max_entries = record { entries = []; ttl = ttl; max_entries = max_entries }

  abbrev has_key : Bytes → StateMap V → Bool
  has_key k sm = elim (lookup k sm.entries) [ none ↦ false | some _ ↦ true ]

  -- The limit is reached and the key is new.
  unfoldable pub is_full_for : Bytes → StateMap V → Bool
  is_full_for k sm =
      ltb 0 sm.max_entries && leb sm.max_entries (length sm.entries) && not (has_key k sm)

  unfoldable pub set : ℕ → Bytes → V → StateMap V → Bool × StateMap V
  unfolding is_full_for
  set now k v sm = if is_full_for k sm then (false, sm) else (
    true,
    record sm {
      entries = insert k (record { key = k; value = v; expires_at = now + sm.ttl }) sm.entries;
    },
  )

  -- now.After(entry.ExpiresAt)
  abbrev pub has_expired : ℕ → StateEntry V → Bool
  has_expired now e = ltb e.expires_at now

  unfoldable pub get : ℕ → Bytes → StateMap V → Option V
  get now k sm = elim (lookup k sm.entries) [
    | none ↦ none
    | some e ↦ if has_expired now e then none else some e.value
  ]

  unfoldable pub delete : Bytes → StateMap V → StateMap V
  delete k sm = record sm { entries = remove k sm.entries }

  abbrev pub size : StateMap V → ℕ
  size sm = length sm.entries

  -- What the janitor does at each tick; the number is that of the entries removed.
  unfoldable pub cleanup : ℕ → StateMap V → ℕ × StateMap V
  cleanup now sm =
      let kept = keep (λ e. not (has_expired now e)) sm.entries in
      (length sm.entries - length kept, record sm { entries = kept })

  values : Assoc (StateEntry V) → Assoc V
  values [] = []
  values ((k, e) ∷ m) = (k, e.value) ∷ values m

  unfoldable pub get_all : ℕ → StateMap V → Assoc V
  unfolding values
  get_all now sm = values (keep (λ e. not (has_expired now e)) sm.entries)
