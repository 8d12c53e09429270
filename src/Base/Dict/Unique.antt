-- ===== src/Base/Dict/Unique.antt =====
-- Maps whose keys stand once, and two writes to one key.
use mathlib.Core.Path.{◌≡◌, refl, ap, subst}
use mathlib.Core.Bool.{Bool}
use mathlib.Core.Option.{none, some}
use mathlib.Core.List.{[], ◌∷◌}
use Prim.Native.String.{String}
use native.Mathlib.Omega.{arith}
use text.Mathlib.TextEquality.{eq_iff}
use agent_infra_system.Base.Tests.{if◌then◌else◌}
use agent_infra_system.Base.Dict.{
  Dict, lookup, insert, erase, erase_if, lookup-insert, lookup-erase,
}

module _ {ℓ} {V : Type ℓ} where
  -- No key stands twice.
  abbrev pub Unique : Dict V → Type ℓ
  Unique [] = Unit
  Unique ((k, v) ∷ m) = (lookup k m ≡ none) × Unique m

  pub insert-insert : (k : String) (v w : V) (m : Dict V) → insert k v (insert k w m) ≡ insert k v m
  unfolding insert
  insert-insert k v w [] = ground (arith, eq_iff k k)
  insert-insert k v w ((j, x) ∷ m) = ground (arith, eq_iff j k, eq_iff k k, insert-insert k v w m)

  pub insert-Unique : (k : String) (v : V) (m : Dict V) → Unique m → Unique (insert k v m)
  unfolding insert lookup
  insert-Unique k v [] u = (refl, tt)
  insert-Unique k v ((j, x) ∷ m) u =
      ground (arith, eq_iff j k, eq_iff k j, insert-Unique k v m u.1, lookup-insert k j v m)

  pub erase-Unique : (k : String) (m : Dict V) → Unique m → Unique (erase k m)
  unfolding erase lookup
  erase-Unique k [] u = tt
  erase-Unique k ((j, x) ∷ m) u = ground (arith, erase-Unique k m u.1, lookup-erase k j m)

  -- Every entry of the list is what the map holds under its key.
  abbrev pub Agrees : Dict V → Dict V → Type ℓ
  Agrees [] m = Unit
  Agrees ((k, v) ∷ rest) m = (lookup k m ≡ some v) × Agrees rest m

  pub Agrees-erase :
      (k : String) (rest m : Dict V)
      → lookup k rest ≡ none
      → Agrees rest m
      → Agrees rest (erase k m)
  unfolding lookup
  Agrees-erase k [] m n a = tt
  Agrees-erase k ((j, x) ∷ rest) m n a =
      ground (arith, eq_iff j k, eq_iff k j, Agrees-erase k rest m, lookup-erase k j m)

  Agrees-cons :
      (k : String) (v : V) (rest m : Dict V)
      → lookup k rest ≡ none
      → Agrees rest m
      → Agrees rest ((k, v) ∷ m)
  unfolding lookup
  Agrees-cons k v [] m n a = tt
  Agrees-cons k v ((j, x) ∷ rest) m n a =
      ground (arith, eq_iff j k, eq_iff k j, Agrees-cons k v rest m)

  pub Agrees-refl : (m : Dict V) → Unique m → Agrees m m
  unfolding lookup
  Agrees-refl [] u = tt
  Agrees-refl ((k, v) ∷ m) u =
      ground (arith, eq_iff k k, Agrees-cons k v m m u.0 (Agrees-refl m u.1))

  -- A write under another key leaves the entries of a list as the map holds them.
  pub Agrees-insert :
      (k : String) (v : V) (rest m : Dict V)
      → lookup k rest ≡ none
      → Agrees rest m
      → Agrees rest (insert k v m)
  unfolding lookup
  Agrees-insert k v [] m n a = tt
  Agrees-insert k v ((j, x) ∷ rest) m n a =
      ground (arith, eq_iff j k, eq_iff k j, Agrees-insert k v rest m, lookup-insert k j v m)

  -- A loop that deletes entries leaves the others, and no key that it has deleted.
  pub lookup-erase_if-none :
      (p : String → V → Bool) (key : String) (m : Dict V)
      → lookup key m ≡ none
      → lookup key (erase_if p m) ≡ none
  unfolding lookup erase_if
  lookup-erase_if-none p key [] n = refl
  lookup-erase_if-none p key ((j, v) ∷ m) n = ground (arith, lookup-erase_if-none p key m)

  pub lookup-erase_if-some :
      (p : String → V → Bool) (key : String) (m : Dict V) (v : V)
      → Unique m
      → lookup key m ≡ some v
      → lookup key (erase_if p m) ≡ (if p key v then none else some v)
  unfolding lookup erase_if
  lookup-erase_if-some p key [] v u e = absurd (ground arith)
  lookup-erase_if-some p key ((j, w) ∷ m) v u e = ground (
    arith,
    eq_iff j key,
    lookup-erase_if-some p key m v u.1,
    λ (same : j ≡ key). ap (λ i. p i w) same,
    λ (same : j ≡ key). lookup-erase_if-none p key m (subst (λ i. lookup i m ≡ none) same u.0),
  )

  pub erase_if-Unique : (p : String → V → Bool) (m : Dict V) → Unique m → Unique (erase_if p m)
  unfolding lookup erase_if
  erase_if-Unique p [] u = tt
  erase_if-Unique p ((j, v) ∷ m) u =
      ground (arith, erase_if-Unique p m u.1, lookup-erase_if-none p j m u.0)
