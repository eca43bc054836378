-- ===== src/Collector/Wlcg/Names.antt =====
-- What an event has after its fields are renamed.
use xrootd_monitoring_shovel.Base.{
  Bool, true, false, not, ◌&&◌, ◌||◌, List, [], ◌∷◌, Option, none, some, Bytes, bytes, eqb, Assoc,
  lookup, if◌then◌else◌, String,
}
use xrootd_monitoring_shovel.Collector.Wlcg.Events.{Floats, Value, to_float64}

-- The name is one of the pairs, on either side.
abbrev is_named : Bytes → List (Bytes × Bytes) → Bool
is_named j [] = false
is_named j ((from, to) ∷ pairs) = eqb from j || eqb to j || is_named j pairs

-- No name stands in the pairs twice.
abbrev pub are_apart : List (Bytes × Bytes) → Bool
are_apart [] = true
are_apart ((from, to) ∷ pairs) =
    not (eqb from to) && not (is_named from pairs) && not (is_named to pairs) && are_apart pairs

module _ {ℓ} {V : Type ℓ} where
  abbrev pub or_else : Option V → Option V → Option V
  or_else none o = o
  or_else (some v) o = some v

  -- Where the value under a name comes from: an old name has none, a new one has that of its old name
  -- or else its own, and every other name its own.
  unfoldable pub renamed : List (Bytes × Bytes) → Bytes → Assoc V → Option V
  unfolding lookup
  renamed [] j m = lookup j m
  renamed ((from, to) ∷ pairs) j m =
      let rest = renamed pairs j m in
      if eqb from j then none else if eqb to j then or_else (lookup from m) (lookup to m) else rest

-- The number under the old name or else under the new one, 0 if there is none.
abbrev pub number_of :
    (floats : Floats) {V : Type 0} → String → String → Assoc (Value floats.F V) → floats.F
number_of floats from to event =
    to_float64 floats (or_else (lookup (bytes from) event) (lookup (bytes to) event))

-- The bytes that a remote site gave.
abbrev pub remote_bytes : (floats : Floats) {V : Type 0} → Assoc (Value floats.F V) → floats.F
remote_bytes floats event =
    floats.plus (number_of floats "b_todisk" "bytes_to_disk" event)
      (number_of floats "b_bypass" "bytes_bypass_cache" event)
