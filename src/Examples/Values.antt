-- ===== src/Examples/Values.antt =====
-- Formats and casts at concrete bytes.
use text.Mathlib.Text.{◌==◌ as str_eq}
use sensor_edge.Prelude.Int.{pos_part, to_unsigned}
use sensor_edge.Poll.Points.{PointMapping}
use sensor_edge.Value.{int32, int16, float64, uint16, Value}
use sensor_edge.Poll.Convert.{number_of, parse_transform, Numerics, convert}
use sensor_edge.Format.Bytes.{put32, put16}
use sensor_edge.Floats.{Floats}
use sensor_edge.Go.{>>=-ne-panic, panic, msg, err, ok, Error}
use sensor_edge.Prelude.{
  ◌≤◌, ◌⊎◌, ◌<◌, length, ℕ, List, ◌++◌, ◌/◌, true, ◌+◌, negsuc, ◌*◌, ◌^◌, false, refl, ◌≢◌, none,
  if◌then◌else◌, arith, pos, ◌≡◌, String, Bool, [], ◌∷◌,
}
use sensor_edge.Format
use sensor_edge.Format.ByteOrder.{float_badc, parse_format-wide, width, named_value}
use sensor_edge.Format.RoundTrip.{parse_format-put}
use sensor_edge.Poll.Decoding.{convert-transform}

parse_format-wide_example :
    let raw : List ℕ = 0x48 ∷ 0x41 ∷ 0 ∷ 0 ∷ [] in
    ((length raw < width float_badc)
      × ((e : Error) × (Format.parse_format "Float BA DC" raw ≡ err e)))
    ⊎ ((width float_badc ≤ length raw)
        × (Format.parse_format "Float BA DC" raw ≡ ok (named_value float_badc raw)))
parse_format-wide_example = parse_format-wide float_badc (0x48 ∷ 0x41 ∷ 0 ∷ 0 ∷ [])

parse_format-put_example :
    (Format.parse_format "INT" (put16 (to_unsigned (2 ^ 16) (negsuc 4)) ++ 7 ∷ [])
      ≡ ok (int16 (negsuc 4)))
    × (Format.parse_format "UINT" (put16 65535 ++ 7 ∷ []) ≡ ok (uint16 65535))
    × (Format.parse_format "Long AB CD" (put32 (to_unsigned (2 ^ 32) (negsuc 99)) ++ 7 ∷ [])
        ≡ ok (int32 (negsuc 99)))
parse_format-put_example =
    parse_format-put (negsuc 4) (negsuc 99) 65535 (7 ∷ []) refl refl (omega arith) refl refl

-- An arithmetic in which a float64 is its own value, for tests that do not depend on it.
abbrev pub counting : Floats
counting = record {
  to_int = λ v. pos v;
  of_int = λ z. pos_part z;
  of_float32 = λ v. v;
  add = λ a b. a + b;
  div = λ a b. a / b;
  mul = λ a b. a * b;
  round = λ v. v;
}

-- The one expression that parses doubles its value.
abbrev pub doubling : Numerics
doubling = record {
  floats = counting;
  parse_float = λ s. none;
  Expression = String;
  parse = λ s. if str_eq s "value * 2" then ok s else err (msg "parse error");
  evaluate = λ e v. ok (float64 (v * 2));
}

abbrev pub mapping : String → String → String → PointMapping
mapping name format transform = record {
  address = "40011";
  name = name;
  kind = "float";
  unit = "";
  transform = transform;
  format = format;
  alarm = record { enable = false; condition = ""; level = ""; message = "" };
}

parse-ne-panic : (b : Bool) (s : String) → (if b then ok s else err (msg "parse error")) ≢ panic
parse-ne-panic true s = λ e. cc
parse-ne-panic false s = λ e. cc

number_of-ne-panic : (x : Value) → number_of doubling x ≢ panic
number_of-ne-panic x = ground arith

transforms_return : (t : String) (x : Value) → parse_transform doubling t x ≢ panic
unfolding parse_transform
transforms_return t x = >>=-ne-panic (number_of doubling x) _ (number_of-ne-panic x) λ v.
    >>=-ne-panic (if str_eq t "value * 2" then ok t else err (msg "parse error")) _
      (parse-ne-panic (str_eq t "value * 2") t) (λ e h. cc)

convert-transform_example :
    convert doubling (mapping "t1" "UINT" "value * 2") (uint16 21)
    ≡ convert doubling (mapping "t1" "UINT" "") (uint16 21)
convert-transform_example =
    convert-transform doubling (mapping "t1" "UINT" "value * 2") (mapping "t1" "UINT" "")
      (uint16 21) refl refl (transforms_return "value * 2") (transforms_return "")
