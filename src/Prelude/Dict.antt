-- ===== src/Prelude/Dict.antt =====
-- Go's `map[string]V` as an association list with at most one entry for a key. A range over a map
-- visits the entries in an unspecified order; the models fix the order of first insertion.
use Prim.Native.String.{String}
use mathlib.Core.Path.{◌≡◌, refl}
use mathlib.Core.Bool.{false}
use mathlib.Core.Option.{Option, none, some}
use mathlib.Core.List.{List, [], ◌∷◌}
use native.Mathlib.Omega.{arith}
use text.Mathlib.Text.{◌==◌ as str_eq}
use text.Mathlib.TextEquality.{eq_iff}
use text.Mathlib.TextPositions.{eq_refl}
use sensor_edge.Prelude.Tests.{if◌then◌else◌}

abbrev pub Dict {ℓ} : Type ℓ → Type ℓ
Dict V = List (String × V)

module _ {ℓ} {V : Type ℓ} where
  unfoldable pub lookup : String → Dict V → Option V
  lookup name [] = none
  lookup name ((key, v) ∷ rest) = if str_eq key name then some v else lookup name rest

  unfoldable pub insert : String → V → Dict V → Dict V
  insert name v [] = (name, v) ∷ []
  insert name v ((key, old) ∷ rest) =
      if str_eq key name then (name, v) ∷ rest else (key, old) ∷ insert name v rest

  pub lookup-insert :
      (name other : String) (v : V) (all : Dict V)
      → lookup other (insert name v all) ≡ (if str_eq name other then some v else lookup other all)
  unfolding insert lookup
  lookup-insert name other v [] = refl
  lookup-insert name other v ((key, old) ∷ rest) =
      ground (
        arith,
        lookup-insert name other v rest,
        eq_iff key name,
        eq_iff key other,
        eq_iff name other,
      )

  pub lookup-insert_self :
      (name : String) (v : V) (all : Dict V) → lookup name (insert name v all) ≡ some v
  lookup-insert_self name v all = simp (lookup-insert, eq_refl)

  pub lookup-insert_ne :
      (name other : String) (v : V) (all : Dict V)
      → str_eq name other ≡ false
      → lookup other (insert name v all) ≡ lookup other all
  lookup-insert_ne name other v all apart = rw (lookup-insert name other v all, apart)
