-- ===== src/Base/Maps.antt =====
-- Go's maps with string keys, as association lists.
use mathlib.Core.Path.{◌≡◌, refl}
use mathlib.Core.Bool.{Bool}
use mathlib.Core.List.{List, [], ◌∷◌}
use mathlib.Core.Option.{Option, none, some}
use native.Mathlib.Omega.{arith}
use compose_manager.Base.Tests.{if◌then◌else◌}
use compose_manager.Base.Texts.{Text, same, same_iff}
use mathlib.Core.Bool.{false}
use compose_manager.Base.Tests.{Bool-cases}
use mathlib.Core.Logic.{inl}
use mathlib.Core.Logic.{inr}
use compose_manager.Base.Texts.{same_sym}

abbrev pub Map {ℓ} : Type ℓ → Type ℓ
Map V = List (Text × V)

module _ {ℓ} {V : Type ℓ} where
  -- `m[k]`.
  unfoldable pub lookup : Text → Map V → Option V
  lookup k [] = none
  lookup k ((j, v) ∷ m) = if same j k then some v else lookup k m

  -- `m[k] = v`.
  unfoldable pub insert : Text → V → Map V → Map V
  insert k v [] = (k, v) ∷ []
  insert k v ((j, w) ∷ m) = if same j k then (j, v) ∷ m else (j, w) ∷ insert k v m

  -- `delete(m, k)`.
  unfoldable pub remove : Text → Map V → Map V
  remove k [] = []
  remove k ((j, v) ∷ m) = let rest = remove k m in if same j k then rest else (j, v) ∷ rest

  -- `for k, v := range m { if drop(v) { delete(m, k) } }`.
  unfoldable pub purge : (V → Bool) → Map V → Map V
  purge drop [] = []
  purge drop ((j, v) ∷ m) = let rest = purge drop m in if drop v then rest else (j, v) ∷ rest

  pub lookup-insert :
      (k j : Text) (v : V) (m : Map V)
      → lookup j (insert k v m) ≡ (if same k j then some v else lookup j m)
  unfolding lookup insert
  lookup-insert k j v [] = refl
  lookup-insert k j v ((i, w) ∷ m) =
      ground (arith, same_iff k j, same_iff i k, same_iff i j, lookup-insert k j v m)

  pub lookup-remove :
      (k j : Text) (m : Map V) → lookup j (remove k m) ≡ (if same k j then none else lookup j m)
  unfolding lookup remove
  lookup-remove k j [] = ground arith
  lookup-remove k j ((i, w) ∷ m) =
      ground (arith, same_iff k j, same_iff i k, same_iff i j, lookup-remove k j m)

  -- No key stands twice.
  abbrev pub Unique : Map V → Type ℓ
  Unique [] = Unit
  Unique ((j, v) ∷ m) = (lookup j m ≡ none) × Unique m

module _ {ℓ} {V : Type ℓ} where
  lookup-insert-none :
      (k j : Text) (v : V) (m : Map V)
      → lookup j m ≡ none
      → same k j ≡ false
      → lookup j (insert k v m) ≡ none
  lookup-insert-none k j v m h d = ground (arith, lookup-insert k j v m)

  pub Unique-insert : (k : Text) (v : V) (m : Map V) → Unique m → Unique (insert k v m)
  unfolding insert lookup
  Unique-insert k v [] u = (refl, tt)
  Unique-insert k v ((j, w) ∷ m) (h, u) = elim (Bool-cases (same j k)) [
    | inl e ↦ rw e (h, u)
    | inr e ↦ rw e (lookup-insert-none k j v m h (rw same_sym e), Unique-insert k v m u)
  ]

  lookup-remove-none : (k j : Text) (m : Map V) → lookup j m ≡ none → lookup j (remove k m) ≡ none
  lookup-remove-none k j m h = ground (arith, lookup-remove k j m)

  pub Unique-remove : (k : Text) (m : Map V) → Unique m → Unique (remove k m)
  unfolding remove
  Unique-remove k [] u = tt
  Unique-remove k ((j, w) ∷ m) (h, u) =
      ground (arith, Unique-remove k m u, lookup-remove-none k j m h)

  abbrev pub unless : (V → Bool) → Option V → Option V
  unless drop none = none
  unless drop (some v) = if drop v then none else some v

  pub lookup-purge :
      (drop : V → Bool) (j : Text) (m : Map V)
      → Unique m
      → lookup j (purge drop m) ≡ unless drop (lookup j m)
  unfolding lookup purge
  lookup-purge drop j [] u = refl
  lookup-purge drop j ((i, w) ∷ m) (h, u) = ground (arith, lookup-purge drop j m u, same_iff i j)

  lookup-purge-none :
      (drop : V → Bool) (j : Text) (m : Map V) → lookup j m ≡ none → lookup j (purge drop m) ≡ none
  unfolding lookup purge
  lookup-purge-none drop j [] h = refl
  lookup-purge-none drop j ((i, w) ∷ m) h = ground (arith, lookup-purge-none drop j m)

  pub Unique-purge : (drop : V → Bool) (m : Map V) → Unique m → Unique (purge drop m)
  unfolding purge
  Unique-purge drop [] u = tt
  Unique-purge drop ((j, w) ∷ m) (h, u) =
      ground (arith, Unique-purge drop m u, lookup-purge-none drop j m h)
