-- ===== src/Base/Maps.antt =====
-- `Map<string, V>` as an association list.
use Prim.Native.String.{String}
use mathlib.Core.Path.{◌≡◌, refl}
use mathlib.Core.List.{List, [], ◌∷◌}
use mathlib.Core.Option.{Option, none, some}
use native.Mathlib.Omega.{arith}
use project.Base.Tests.{if◌then◌else◌}
use project.Base.Equality.{◌==◌, ==_iff, ==_refl, eq_string}

module _ {ℓ} {V : Type ℓ} where
  unfoldable pub get_key : String → List (String × V) → Option V
  get_key k [] = none
  get_key k ((j, v) ∷ m) = if j == k then some v else get_key k m

  unfoldable pub set_key : String → V → List (String × V) → List (String × V)
  set_key k v [] = (k, v) ∷ []
  set_key k v ((j, w) ∷ m) = if j == k then (k, v) ∷ m else (j, w) ∷ set_key k v m

  unfoldable pub delete_key : String → List (String × V) → List (String × V)
  delete_key k [] = []
  delete_key k ((j, w) ∷ m) = if j == k then delete_key k m else (j, w) ∷ delete_key k m

  pub get_key-set_key :
      (k j : String) (v : V) (m : List (String × V))
      → get_key j (set_key k v m) ≡ (if k == j then some v else get_key j m)
  unfolding get_key set_key
  get_key-set_key k j v [] = refl
  get_key-set_key k j v ((i, w) ∷ m) =
      ground (arith, ==_iff k j, ==_iff i k, ==_iff i j, get_key-set_key k j v m)

  pub get_key-delete_key :
      (k j : String) (m : List (String × V))
      → get_key j (delete_key k m) ≡ (if k == j then none else get_key j m)
  unfolding get_key delete_key
  get_key-delete_key k j [] = ground arith
  get_key-delete_key k j ((i, w) ∷ m) =
      ground (arith, ==_iff k j, ==_iff i k, ==_iff i j, get_key-delete_key k j m)

  pub get_key-set_key_self :
      (k : String) (v : V) (m : List (String × V)) → get_key k (set_key k v m) ≡ some v
  get_key-set_key_self k v m = simp (get_key-set_key, ==_refl)
