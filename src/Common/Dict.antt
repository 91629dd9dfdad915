-- ===== src/Common/Dict.antt =====
-- `Map` with text keys, in insertion order: `set` on a key that is there keeps its place.
use mathlib.Core.Path.{◌≡◌, refl}
use mathlib.Core.Option.{Option, none, some}
use mathlib.Core.List.{List, [], ◌∷◌}
use native.Mathlib.Omega.{arith}
use gatehouse.Common.Tests.{if◌then◌else◌}
use gatehouse.Common.Strings.{Text, text_eq, text_eq_iff}

abbrev pub Dict {ℓ} : Type ℓ → Type ℓ
Dict V = List (Text × V)

module _ {ℓ} {V : Type ℓ} where
  unfoldable pub get : Text → Dict V → Option V
  get k [] = none
  get k ((j, v) ∷ m) = if text_eq j k then some v else get k m

  unfoldable pub set : Text → V → Dict V → Dict V
  set k v [] = (k, v) ∷ []
  set k v ((j, w) ∷ m) = if text_eq j k then (k, v) ∷ m else (j, w) ∷ set k v m

  unfoldable pub delete : Text → Dict V → Dict V
  delete k [] = []
  delete k ((j, v) ∷ m) = let rest = delete k m in if text_eq j k then rest else (j, v) ∷ rest

  pub get-set :
      (k j : Text) (v : V) (m : Dict V)
      → get j (set k v m) ≡ (if text_eq k j then some v else get j m)
  unfolding get set
  get-set k j v [] = refl
  get-set k j v ((i, w) ∷ m) =
      ground (arith, text_eq_iff k j, text_eq_iff i k, text_eq_iff i j, get-set k j v m)

  pub get-delete :
      (k j : Text) (m : Dict V) → get j (delete k m) ≡ (if text_eq k j then none else get j m)
  unfolding get delete
  get-delete k j [] = ground arith
  get-delete k j ((i, v) ∷ m) =
      ground (arith, get-delete k j m, text_eq_iff i k, text_eq_iff i j, text_eq_iff k j)

-- No key twice, as a `Map` and a table with a primary key have it.
abbrev pub UniqueKeys : {V : Type 0} → Dict V → Type 0
UniqueKeys [] = Unit {0}
UniqueKeys ((j, v) ∷ m) = (get j m ≡ none) × UniqueKeys m

module _ {V : Type 0} where
  pub set-UniqueKeys : (k : Text) (v : V) (m : Dict V) → UniqueKeys m → UniqueKeys (set k v m)
  unfolding set get
  set-UniqueKeys k v [] u = (refl, tt)
  set-UniqueKeys k v ((j, w) ∷ m) u =
      ground (arith, text_eq_iff j k, text_eq_iff k j, get-set k j v m, set-UniqueKeys k v m u.1)

  pub delete-UniqueKeys : (k : Text) (m : Dict V) → UniqueKeys m → UniqueKeys (delete k m)
  unfolding delete get
  delete-UniqueKeys k [] u = tt
  delete-UniqueKeys k ((j, w) ∷ m) u = ground (arith, get-delete k j m, delete-UniqueKeys k m u.1)
