-- ===== src/Base/Dict.antt =====
-- Go's `map[string]V` as an association list. Keys are compared as texts; the code never relies on
-- the order of a map's entries.
pub mod Unique
use mathlib.Core.Path.{◌≡◌, refl}
use mathlib.Core.Bool.{Bool}
use mathlib.Core.Option.{Option, none, some}
use mathlib.Core.List.{List, [], ◌∷◌, map}
use Prim.Native.Nat.{ℕ, suc}
use Prim.Native.String.{String}
use native.Mathlib.Omega.{arith}
use text.Mathlib.Text.{◌==◌}
use text.Mathlib.TextEquality.{eq_iff}
use agent_infra_system.Base.Tests.{if◌then◌else◌}

abbrev pub Dict {ℓ} : Type ℓ → Type ℓ
Dict V = List (String × V)

module _ {ℓ} {V : Type ℓ} where
  -- `v, ok := m[k]`
  unfoldable pub lookup : String → Dict V → Option V
  lookup key [] = none
  lookup key ((name, held) ∷ rest) = if name == key then some held else lookup key rest

  -- `m[k] = v`
  unfoldable pub insert : String → V → Dict V → Dict V
  insert key new [] = (key, new) ∷ []
  insert key new ((name, held) ∷ rest) =
      let later = insert key new rest in
      if name == key then (key, new) ∷ rest else (name, held) ∷ later

  -- `delete(m, k)`
  unfoldable pub erase : String → Dict V → Dict V
  erase k [] = []
  erase k ((j, v) ∷ m) = let rest = erase k m in if j == k then rest else (j, v) ∷ rest

  -- a `for k, v := range m` that deletes the entries that pass a test
  unfoldable pub erase_if : (String → V → Bool) → Dict V → Dict V
  erase_if p [] = []
  erase_if p ((j, v) ∷ m) = let rest = erase_if p m in if p j v then rest else (j, v) ∷ rest

  -- how many entries such a loop deletes
  unfoldable pub count_if : (String → V → Bool) → Dict V → ℕ
  count_if p [] = 0
  count_if p ((j, v) ∷ m) = let rest = count_if p m in if p j v then suc rest else rest

  abbrev pub keys : Dict V → List String
  keys = map (λ e. e.0)

  pub lookup-insert :
      (key other : String) (new : V) (d : Dict V)
      → lookup other (insert key new d) ≡ (if key == other then some new else lookup other d)
  unfolding insert lookup
  lookup-insert key other new [] = refl
  lookup-insert key other new ((name, held) ∷ rest) =
      let before = lookup-insert key other new rest in
      ground (arith, before, eq_iff name key, eq_iff key other, eq_iff name other)

  pub lookup-erase :
      (k j : String) (m : Dict V) → lookup j (erase k m) ≡ (if k == j then none else lookup j m)
  unfolding lookup erase
  lookup-erase k j [] = ground arith
  lookup-erase k j ((i, w) ∷ m) =
      ground (arith, eq_iff k j, eq_iff i k, eq_iff i j, lookup-erase k j m)
