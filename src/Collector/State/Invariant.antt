-- ===== src/Collector/State/Invariant.antt =====
-- The map never holds more entries than its maximum, nor a key twice, whatever methods run in
-- whatever order, the janitor's cleanup among them.
use xrootd_monitoring_shovel.Base.{
  ℕ, ◌+◌, ◌≤◌, ◌<◌, not, List, [], ◌∷◌, Bytes, UniqueKeys, UniqueKeys-insert, UniqueKeys-remove,
  UniqueKeys-keep, length-insert, length-remove, length-keep, length, arith,
}
use xrootd_monitoring_shovel.Collector.State.{
  StateEntry, StateMap, new_state_map, set, delete, cleanup, has_expired,
}

pub record IsValid {V : Type 0} (sm : StateMap V) : Type 0 where
  pub unique : UniqueKeys sm.entries
  pub bounded : 0 < sm.max_entries → length sm.entries ≤ sm.max_entries

-- The methods that change the map.
pub data Operation (V : Type 0) : Type 0 where
  setting : ℕ → Bytes → V → Operation V
  deleting : Bytes → Operation V
  cleaning : ℕ → Operation V

module _ {V : Type 0} where
  pub apply : Operation V → StateMap V → StateMap V
  apply (setting now k v) sm = (set now k v sm).1
  apply (deleting k) sm = delete k sm
  apply (cleaning now) sm = (cleanup now sm).1

  pub apply_all : List (Operation V) → StateMap V → StateMap V
  apply_all [] sm = sm
  apply_all (o ∷ os) sm = apply_all os (apply o sm)

  pub set-IsValid :
      (now : ℕ) (k : Bytes) (v : V) (sm : StateMap V) → IsValid sm → IsValid (set now k v sm).1
  unfolding set
  set-IsValid now k v sm h =
      let e : StateEntry V = record { key = k; value = v; expires_at = now + sm.ttl } in
      ground (arith, UniqueKeys-insert k e sm.entries h.unique, length-insert k e sm.entries)

  pub delete-IsValid : (k : Bytes) (sm : StateMap V) → IsValid sm → IsValid (delete k sm)
  unfolding delete
  delete-IsValid k sm h =
      ground (arith, UniqueKeys-remove k sm.entries h.unique, length-remove k sm.entries)

  pub apply-IsValid : (o : Operation V) (sm : StateMap V) → IsValid sm → IsValid (apply o sm)
  unfolding apply cleanup
  apply-IsValid (setting now k v) sm h = set-IsValid now k v sm h
  apply-IsValid (deleting k) sm h = delete-IsValid k sm h
  apply-IsValid (cleaning now) sm h = ground (
    arith,
    UniqueKeys-keep (λ e. not (has_expired now e)) sm.entries h.unique,
    length-keep (λ (e : StateEntry V). not (has_expired now e)) sm.entries,
  )

  -- From a valid map, any run of Set, Delete and cleanup, at any times, leaves a valid map: every
  -- key once and, with a positive maximum, no more entries than that.
  pub apply_all-IsValid :
      (os : List (Operation V)) (sm : StateMap V) → IsValid sm → IsValid (apply_all os sm)
  unfolding apply_all
  apply_all-IsValid [] sm h = h
  apply_all-IsValid (o ∷ os) sm h = apply_all-IsValid os (apply o sm) (apply-IsValid o sm h)

  pub new_state_map-IsValid : (ttl max : ℕ) → IsValid (new_state_map {V = V} ttl max)
  new_state_map-IsValid ttl max = record { unique = tt; bounded = λ h. omega arith }
