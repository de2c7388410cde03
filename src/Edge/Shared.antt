-- ===== src/Edge/Shared.antt =====
-- Several aggregate rules for one point.
use text.Mathlib.Text.{◌==◌ as str_eq}
use sensor_edge.Edge.{AggregateRule, PointBuffer, add, buffer_or_new}
use sensor_edge.Floats.{Floats}
use sensor_edge.Prelude.Dict.{Dict, lookup}
use sensor_edge.Prelude.{
  ◌≡◌, ◌&&◌, if◌then◌else◌, Bool, some, zero, suc, pos, ◌∷◌, [], ℕ, ℤ, List, Option, String,
}
use sensor_edge.Value.{Value, float64}

module _ (device point : String) where
  -- The rule is one for the point of the device.
  abbrev pub is_for : AggregateRule → Bool
  is_for rule = str_eq rule.device_id device && str_eq rule.point point

  -- How many rules there are for the point.
  pub count_for : List AggregateRule → ℕ
  count_for [] = 0
  count_for (rule ∷ rules) = let rest = count_for rules in if is_for rule then suc rest else rest

  -- The window of the first of them.
  pub first_window : List AggregateRule → ℤ
  first_window [] = pos 0
  first_window (rule ∷ rules) =
      let rest = first_window rules in if is_for rule then rule.window else rest

-- Add is called n times with one value; a buffer that is not there is made with the window.
pub add_times : ℕ → ℤ → ℕ → Option PointBuffer → Option PointBuffer
add_times zero window v o = o
add_times (suc n) window v o = add_times n window v (some (add (buffer_or_new window o) v))

-- Round after round.
pub add_rounds : ℕ → ℤ → List ℕ → Option PointBuffer → Option PointBuffer
add_rounds n window [] o = o
add_rounds n window (v ∷ vs) o = add_rounds n window vs (add_times n window v o)

-- The rounds of one device, with the values of one point.
abbrev pub Rounds : Type 0
Rounds = List (Dict Value × ℕ)

pub rounds_of : String → Rounds → List (String × Dict Value)
rounds_of device [] = []
rounds_of device ((points, v) ∷ rounds) = (device, points) ∷ rounds_of device rounds

pub values_in : Rounds → List ℕ
values_in [] = []
values_in ((points, v) ∷ rounds) = v ∷ values_in rounds

abbrev pub HasValues : String → Rounds → Type 0
HasValues point [] = Unit
HasValues point ((points, v) ∷ rounds) =
    (lookup point points ≡ some (float64 v)) × HasValues point rounds
