-- ===== src/Poll/Convert.antt =====
-- main.go: from the value that a driver returned to the value that is reported.
use text.Mathlib.Text.{◌==◌ as str_eq}
use sensor_edge.Go.{◌>>=◌, panic, msg, err, ok, Outcome}
use sensor_edge.Value.{
  bytes, words, uint64, uint32, uint16, int64, int32, float32, string, float64, int, Value,
}
use sensor_edge.Floats.{Floats}
use sensor_edge.Prelude.Text.{codes, to_upper, codes_eq, to_lower, has_prefix}
use sensor_edge.Prelude.{
  true, [], ◌++◌, ◌∷◌, none, some, if◌then◌else◌, pos, Bool, String, ℕ, Option,
}
use sensor_edge.Format.Cast.{parse_and_cast_format}
use sensor_edge.Format.Bytes.{put16, put32}
use sensor_edge.Poll.Points.{PointMapping}

-- strconv.ParseFloat with 64 bits, and govaluate with the functions abs, sqrt, log, min and max; an
-- expression may panic in one of these on an argument that is no float64, or is missing.
pub record Numerics : Type 1 where
  pub floats : Floats
  pub parse_float : String → Option ℕ
  pub Expression : Type 0
  pub parse : String → Outcome Expression
  pub evaluate : Expression → ℕ → Outcome Value

abbrev is_float : String → Bool
is_float format = has_prefix (to_upper format) (codes "FLOAT")

abbrev is_double : String → Bool
is_double format = has_prefix (to_upper format) (codes "DOUBLE")

-- The driver's words as bytes: two words, four words, a uint32, and a single word, which is padded
-- with two bytes 0.
pub to_bytes : Bool → Bool → Value → Value
to_bytes true double (words (a ∷ b ∷ [])) = bytes (put16 a ++ put16 b)
to_bytes float true (words (a ∷ b ∷ c ∷ d ∷ [])) = bytes (put16 a ++ put16 b ++ put16 c ++ put16 d)
to_bytes true double (uint32 v) = bytes (put32 v)
to_bytes true double (uint16 v) = bytes (put16 v ++ 0 ∷ 0 ∷ [])
to_bytes true double (words (v ∷ [])) = bytes (put16 v ++ 0 ∷ 0 ∷ [])
to_bytes float double v = v

-- `val2, err := ParseAndCastFormat(p.Format, val); if err == nil { val = val2 }`
abbrev or_old : Value → Outcome Value → Outcome Value
or_old old (ok v) = ok v
or_old old (err e) = ok old
or_old old panic = panic

unfoldable pub format_value : String → Value → Outcome Value
unfolding to_bytes has_prefix to_upper
format_value format v =
    let raw = to_bytes (is_float format) (is_double format) v in
    if str_eq format "" then ok raw else or_old raw (parse_and_cast_format format raw)

module _ (n : Numerics) where
  abbrev parsed : Option ℕ → Outcome ℕ
  parsed none = err (msg "strconv.ParseFloat: parsing: invalid syntax")
  parsed (some v) = ok v

  -- The conversion to float64 at the head of parseTransform.
  abbrev pub number_of : Value → Outcome ℕ
  number_of (int v) = ok (n.floats.of_int v)
  number_of (int32 v) = ok (n.floats.of_int v)
  number_of (int64 v) = ok (n.floats.of_int v)
  number_of (float32 v) = ok (n.floats.of_float32 v)
  number_of (float64 v) = ok v
  number_of (uint16 v) = ok (n.floats.of_int (pos v))
  number_of (uint32 v) = ok (n.floats.of_int (pos v))
  number_of (uint64 v) = ok (n.floats.of_int (pos v))
  number_of (string s) = parsed (n.parse_float s)
  number_of _ = err (msg "unsupported value type")

  unfoldable pub parse_transform : String → Value → Outcome Value
  parse_transform expr value = do v ← number_of value; e ← n.parse expr; n.evaluate e v

  -- The result of the transform is bound to a new `val` inside the if, and the outer one stays.
  abbrev pub ignoring : Value → Outcome Value → Outcome Value
  ignoring old panic = panic
  ignoring old _ = ok old

  unfoldable pub transform_value : PointMapping → Value → Outcome Value
  transform_value p v =
      if str_eq p.transform "" then ok v else ignoring v (parse_transform p.transform v)

  abbrev hundred : ℕ
  hundred = n.floats.of_int (pos 100)

  -- math.Round(f*100) / 100
  abbrev cents : ℕ → Value
  cents f = float64 (n.floats.div (n.floats.round (n.floats.mul f hundred)) hundred)

  abbrev or_string : (ℕ → Value) → String → Option ℕ → Value
  or_string k s none = string s
  or_string k s (some f) = k f

  abbrev float_typed : Value → Value
  float_typed (float32 v) = cents (n.floats.of_float32 v)
  float_typed (float64 v) = cents v
  float_typed (int v) = cents (n.floats.of_int v)
  float_typed (int32 v) = cents (n.floats.of_int v)
  float_typed (int64 v) = cents (n.floats.of_int v)
  float_typed (uint16 v) = cents (n.floats.of_int (pos v))
  float_typed (uint32 v) = cents (n.floats.of_int (pos v))
  float_typed (uint64 v) = cents (n.floats.of_int (pos v))
  float_typed (string s) = or_string cents s (n.parse_float s)
  float_typed v = v

  abbrev rounded : ℕ → Value
  rounded f = int (n.floats.to_int (n.floats.round f))

  abbrev int_typed : Value → Value
  int_typed (float32 v) = rounded (n.floats.of_float32 v)
  int_typed (float64 v) = rounded v
  int_typed (string s) = or_string rounded s (n.parse_float s)
  int_typed v = v

  unfoldable pub type_value : PointMapping → Value → Value
  unfolding to_lower codes_eq
  type_value p v =
      let w = if codes_eq (to_lower p.kind) (codes "float") then float_typed v else v in
      if codes_eq (to_lower p.kind) (codes "int") then int_typed w else w

  unfoldable pub convert : PointMapping → Value → Outcome Value
  convert p v = do
    formatted ← format_value p.format v
    transformed ← transform_value p formatted
    ok (type_value p transformed)
