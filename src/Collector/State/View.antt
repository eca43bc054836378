-- ===== src/Collector/State/View.antt =====
-- What a reader of the map sees: `Get` and `GetAll` against the methods that change the map.
use xrootd_monitoring_shovel.Base.{
  ℕ, ◌+◌, ◌≤◌, ◌<◌, ◌≡◌, ◌↔◌, refl, ◌∙◌, Bool, false, not, ◌&&◌, [], ◌∷◌, none, some, Bytes, Assoc,
  lookup, keep, lookup-insert, lookup-remove, lookup-keep, eqb, arith, ltb, if◌then◌else◌,
}
use xrootd_monitoring_shovel.Collector.State.{
  StateEntry, StateMap, set, delete, cleanup, get, get_all, values, size, has_expired,
}
use xrootd_monitoring_shovel.Collector.State.Invariant.{IsValid}

module _ {V : Type 0} where
  -- What `Get` finds after a `Set`: a `Set` that is refused changes nothing; one that is not makes
  -- its key have the new value until the time-to-live is over, and changes no other key.
  pub get-set :
      (t now : ℕ) (j k : Bytes) (v : V) (sm : StateMap V)
      → get t j (set now k v sm).1 ≡ (
          if (set now k v sm).0 && eqb k j
          then (if ltb (now + sm.ttl) t then none else some v)
          else get t j sm)
  unfolding get set
  get-set t now j k v sm = ground (
    arith,
    lookup-insert k j (record { key = k; value = v; expires_at = now + sm.ttl }) sm.entries,
  )

  -- A `Set` is refused exactly when there is a limit, as many entries, and the key is new.
  pub set_refused_iff :
      (now : ℕ) (k : Bytes) (v : V) (sm : StateMap V)
      → ((set now k v sm).0 ≡ false)
        ↔ ((0 < sm.max_entries) × (sm.max_entries ≤ size sm) × (lookup k sm.entries ≡ none))
  unfolding set
  set_refused_iff now k v sm = ((λ h. ground arith), (λ h. ground arith))

  pub get-delete :
      (t : ℕ) (j k : Bytes) (sm : StateMap V)
      → get t j (delete k sm) ≡ (if eqb k j then none else get t j sm)
  unfolding get delete
  get-delete t j k sm = ground (arith, lookup-remove k j sm.entries)

  -- A cleanup at one time changes nothing that a `Get` can find then or later.
  pub get-cleanup :
      (now t : ℕ) (k : Bytes) (sm : StateMap V)
      → IsValid sm
      → now ≤ t
      → get t k (cleanup now sm).1 ≡ get t k sm
  unfolding get cleanup
  get-cleanup now t k sm h le =
      ground
        (arith, lookup-keep (λ (e : StateEntry V). not (has_expired now e)) k sm.entries h.unique)

  lookup-values :
      (k : Bytes) (m : Assoc (StateEntry V))
      → lookup k (values m) ≡ elim (lookup k m) [ none ↦ none | some e ↦ some e.value ]
  unfolding lookup values
  lookup-values k [] = refl
  lookup-values k ((j, e) ∷ m) = ground (arith, lookup-values k m)

  -- `GetAll` has for each key what `Get` finds for it.
  pub lookup-get_all :
      (now : ℕ) (k : Bytes) (sm : StateMap V)
      → IsValid sm
      → lookup k (get_all now sm) ≡ get now k sm
  unfolding get get_all
  lookup-get_all now k sm h =
      let live : StateEntry V → Bool = λ e. not (has_expired now e) in
      lookup-values k (keep live sm.entries)
      ∙ ground (arith, lookup-keep live k sm.entries h.unique)
