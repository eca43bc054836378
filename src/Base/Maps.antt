-- ===== src/Base/Maps.antt =====
-- Go maps with string keys as association lists: lookup, assignment, delete, len.
use Prim.Native.Nat.{◌+◌, ◌≤◌}
use mathlib.Core.Path.{◌≡◌, refl}
use mathlib.Core.Bool.{Bool}
use mathlib.Core.List.{List, [], ◌∷◌}
use mathlib.Core.Option.{Option, none, some}
use native.Mathlib.Omega.{arith}
use xrootd_monitoring_shovel.Base.Tests.{if◌then◌else◌}
use xrootd_monitoring_shovel.Base.Lists.{length}
use xrootd_monitoring_shovel.Base.Text.{Bytes, eqb, eqb_iff}

abbrev pub Assoc {ℓ} : Type ℓ → Type ℓ
Assoc V = List (Bytes × V)

module _ {ℓ} {V : Type ℓ} where
  unfoldable pub lookup : Bytes → Assoc V → Option V
  lookup k [] = none
  lookup k ((j, v) ∷ m) = if eqb j k then some v else lookup k m

  unfoldable pub insert : Bytes → V → Assoc V → Assoc V
  insert k v [] = (k, v) ∷ []
  insert k v ((j, w) ∷ m) = if eqb j k then (k, v) ∷ m else (j, w) ∷ insert k v m

  unfoldable pub remove : Bytes → Assoc V → Assoc V
  remove k [] = []
  remove k ((j, w) ∷ m) = let rest = remove k m in if eqb j k then rest else (j, w) ∷ rest

  pub lookup-insert :
      (k j : Bytes) (v : V) (m : Assoc V)
      → lookup j (insert k v m) ≡ (if eqb k j then some v else lookup j m)
  unfolding lookup insert
  lookup-insert k j v [] = refl
  lookup-insert k j v ((i, w) ∷ m) =
      ground (arith, eqb_iff k j, eqb_iff i k, eqb_iff i j, lookup-insert k j v m)

  pub lookup-remove :
      (k j : Bytes) (m : Assoc V) → lookup j (remove k m) ≡ (if eqb k j then none else lookup j m)
  unfolding lookup remove
  lookup-remove k j [] = ground arith
  lookup-remove k j ((i, w) ∷ m) =
      ground (arith, eqb_iff k j, eqb_iff i k, eqb_iff i j, lookup-remove k j m)

  -- A new key makes one entry more, a known key none.
  pub length-insert :
      (k : Bytes) (v : V) (m : Assoc V)
      → length (insert k v m) ≡ elim (lookup k m) [ none ↦ length m + 1 | some _ ↦ length m ]
  unfolding lookup insert
  length-insert k v [] = omega arith
  length-insert k v ((i, w) ∷ m) = ground (arith, length-insert k v m)

  pub length-remove : (k : Bytes) (m : Assoc V) → length (remove k m) ≤ length m
  unfolding remove
  length-remove k [] = omega arith
  length-remove k ((i, w) ∷ m) = ground (arith, length-remove k m)

module _ {ℓ} {V : Type ℓ} where
  -- Every key stands once, as in a Go map.
  abbrev pub UniqueKeys : Assoc V → Type ℓ
  UniqueKeys [] = Unit
  UniqueKeys ((k, _) ∷ m) = (lookup k m ≡ none) × UniqueKeys m

  pub UniqueKeys-insert :
      (k : Bytes) (v : V) (m : Assoc V) → UniqueKeys m → UniqueKeys (insert k v m)
  unfolding insert
  UniqueKeys-insert k v [] h = unfold lookup in (refl, tt)
  UniqueKeys-insert k v ((j, w) ∷ m) h =
      ground (arith, eqb_iff j k, eqb_iff k j, lookup-insert k j v m, UniqueKeys-insert k v m h.1)

  pub UniqueKeys-remove : (k : Bytes) (m : Assoc V) → UniqueKeys m → UniqueKeys (remove k m)
  unfolding remove
  UniqueKeys-remove k [] h = tt
  UniqueKeys-remove k ((j, w) ∷ m) h =
      ground (arith, lookup-remove k j m, UniqueKeys-remove k m h.1)

  -- The entries whose value passes the test.
  unfoldable pub keep : (V → Bool) → Assoc V → Assoc V
  keep p [] = []
  keep p ((k, v) ∷ m) = let rest = keep p m in if p v then (k, v) ∷ rest else rest

  abbrev pub passing : (V → Bool) → Option V → Option V
  passing p none = none
  passing p (some v) = if p v then some v else none

  pub lookup-keep :
      (p : V → Bool) (k : Bytes) (m : Assoc V)
      → UniqueKeys m
      → lookup k (keep p m) ≡ passing p (lookup k m)
  unfolding lookup keep
  lookup-keep p k [] h = refl
  lookup-keep p k ((j, v) ∷ m) h = ground (arith, eqb_iff j k, lookup-keep p k m h.1)

  pub UniqueKeys-keep : (p : V → Bool) (m : Assoc V) → UniqueKeys m → UniqueKeys (keep p m)
  unfolding keep
  UniqueKeys-keep p [] h = tt
  UniqueKeys-keep p ((k, v) ∷ m) h = ground (arith, lookup-keep p k m h.1, UniqueKeys-keep p m h.1)

  pub length-keep : (p : V → Bool) (m : Assoc V) → length (keep p m) ≤ length m
  unfolding keep
  length-keep p [] = omega arith
  length-keep p ((k, v) ∷ m) = ground (arith, length-keep p m)
