-- ===== src/Go/Show.antt =====
-- fmt's %v and %s of the values that the program prints into texts. The texts of floats, and those
-- that fmt gives where a verb does not fit, are parameters.
use sensor_edge.Prelude.Decimal.{decimal_text}
use sensor_edge.Prelude.{◌+◌, negsuc, map, [], pos, if◌then◌else◌, ◌∷◌, List, ℕ, String, ℤ, Bool}
use Prim.Native.String.{◌++◌}
use sensor_edge.Value.{
  Value, nil, bool, int, int16, int32, int64, uint, uint16, uint32, uint64, float32, float64,
  string, bytes, words, bools, object_id, other,
}

pub record Printer : Type 0 where
  pub float32_text : ℕ → String
  pub float64_text : ℕ → String
  pub other_text : String
  pub wrong_verb : Value → String  -- %!s(type=value)

-- The items between blanks, in brackets.
abbrev spaced : List String → String
spaced [] = ""
spaced (s ∷ []) = s
spaced (s ∷ t ∷ ts) = s ++ " " ++ spaced (t ∷ ts)

abbrev bool_text : Bool → String
bool_text b = if b then "true" else "false"

unfoldable pub int_text : ℤ → String
int_text (pos n) = decimal_text n
int_text (negsuc n) = "-" ++ decimal_text (n + 1)

module _ (pr : Printer) where
  -- fmt.Sprintf("%v", v)
  unfoldable pub sprint : Value → String
  sprint nil = "<nil>"
  sprint (bool b) = bool_text b
  sprint (int v) = int_text v
  sprint (int16 v) = int_text v
  sprint (int32 v) = int_text v
  sprint (int64 v) = int_text v
  sprint (uint v) = decimal_text v
  sprint (uint16 v) = decimal_text v
  sprint (uint32 v) = decimal_text v
  sprint (uint64 v) = decimal_text v
  sprint (float32 v) = pr.float32_text v
  sprint (float64 v) = pr.float64_text v
  sprint (string s) = s
  sprint (bytes bs) = "[" ++ spaced (map decimal_text bs) ++ "]"
  sprint (words ws) = "[" ++ spaced (map decimal_text ws) ++ "]"
  sprint (bools bs) = "[" ++ spaced (map bool_text bs) ++ "]"
  sprint (object_id kind number) = "{" ++ decimal_text kind ++ " " ++ decimal_text number ++ "}"
  sprint other = pr.other_text

  -- %s of an interface value
  unfoldable pub sprint_s : Value → String
  sprint_s (string s) = s
  sprint_s v = pr.wrong_verb v
