-- ===== src/Common/Dict.antt =====
-- Constant tables: association lists with text keys.
use Prim.Native.String.{String}
use mathlib.Core.Path.{◌≡◌}
use mathlib.Core.Bool.{Bool, true, false, ◌||◌}
use mathlib.Core.Option.{Option, none, some}
use mathlib.Core.List.{List, [], ◌∷◌}
use mathlib.Core.Logic.{inl, inr}
use native.Mathlib.Omega.{arith}
use text.Mathlib.TextEquality.{eq_iff}
use daemon_supply_chain.Common.Tests.{Bool-cases, ◌==◌, if◌then◌else◌}
use daemon_supply_chain.Common.Lists.{all}

-- `value in {…}` for a set of texts.
abbrev pub elem : String → List String → Bool
elem s [] = false
elem s (t ∷ ts) = s == t || elem s ts

module _ {ℓ} {V : Type ℓ} where
  -- `table.get(key)`
  abbrev pub lookup : String → List (String × V) → Option V
  lookup k [] = none
  lookup k ((j, v) ∷ m) = if k == j then some v else lookup k m

  -- A check of every entry of a table holds of what a lookup finds, whatever the key.
  pub lookup-all :
      (p : String → V → Bool) (k : String) (m : List (String × V)) (v : V)
      → all (λ e. p e.0 e.1) m ≡ true
      → lookup k m ≡ some v
      → p k v ≡ true
  lookup-all p k [] v h e = cc
  lookup-all p k ((j, w) ∷ m) v h e = elim (Bool-cases (k == j)) [
    | inl here ↦ ground (arith, eq_iff k j)
    | inr there ↦ lookup-all p k m v (ground arith) (ground arith)
  ]
