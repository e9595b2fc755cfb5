-- ===== src/Prelude/Maps.antt =====
-- A JavaScript Map: an association list in insertion order. `set` of a present key keeps its place.
use critiq_be.Prelude.Lists.{countb, countb-append}
use critiq_be.Prelude.Strings.{Text, text_eq, text_eq_iff}
use critiq_be.Prelude.Tests.{if◌then◌else◌}
use Prim.Native.Nat.{◌+◌}
use mathlib.Core.Path.{◌≡◌, refl}
use mathlib.Core.Bool.{Bool}
use mathlib.Core.Option.{Option, none, some}
use mathlib.Core.List.{List, [], ◌∷◌, ◌++◌}
use native.Mathlib.Omega.{arith}

module _ {ℓ} {V : Type ℓ} where
  unfoldable pub map_get : Text → List (Text × V) → Option V
  map_get k [] = none
  map_get k ((j, v) ∷ m) = let rest = map_get k m in if text_eq j k then some v else rest

  unfoldable pub map_set : Text → V → List (Text × V) → List (Text × V)
  map_set k v [] = (k, v) ∷ []
  map_set k v ((j, w) ∷ m) =
      let rest = map_set k v m in if text_eq j k then (j, v) ∷ m else (j, w) ∷ rest

  unfoldable pub map_delete : Text → List (Text × V) → List (Text × V)
  map_delete k [] = []
  map_delete k ((j, w) ∷ m) = let rest = map_delete k m in if text_eq j k then m else (j, w) ∷ rest

  pub map_get-map_set :
      (k j : Text) (v : V) (m : List (Text × V))
      → map_get j (map_set k v m) ≡ (if text_eq k j then some v else map_get j m)
  unfolding map_get map_set
  map_get-map_set k j v [] = refl
  map_get-map_set k j v ((i, w) ∷ m) =
      ground (arith, text_eq_iff k j, text_eq_iff i k, text_eq_iff i j, map_get-map_set k j v m)

-- Maps whose values are lists, `[...map.values()].flat()`.
abbrev pub or_empty {ℓ} : {A : Type ℓ} → Option (List A) → List A
or_empty none = []
or_empty (some xs) = xs

module _ {ℓ} {A : Type ℓ} where
  unfoldable pub flat_values : List (Text × List A) → List A
  flat_values [] = []
  flat_values ((k, xs) ∷ m) = xs ++ flat_values m

  -- Setting a key exchanges its old elements for the new ones.
  pub countb-map_set :
      (p : A → Bool) (k : Text) (xs : List A) (m : List (Text × List A))
      → countb p (flat_values (map_set k xs m)) + countb p (or_empty (map_get k m))
        ≡ countb p (flat_values m) + countb p xs
  unfolding flat_values map_set map_get countb
  countb-map_set p k xs [] = ground (arith, countb-append p xs [])
  countb-map_set p k xs ((j, ys) ∷ m) = ground (
    arith,
    countb-append p xs (flat_values m),
    countb-append p ys (flat_values m),
    countb-append p ys (flat_values (map_set k xs m)),
    countb-map_set p k xs m,
  )
