-- ===== src/Format/Cast.antt =====
-- ParseAndCastFormat of utils/format_parser.go.
use text.Mathlib.Text.{◌==◌ as str_eq}
use text.Mathlib.TextEquality.{eq_iff}
use sensor_edge.Prelude.{
  Bool-cases, inl, inr, ℕ, ℤ, pos, negsuc, ◌%◌, ◌^◌, ◌<◌, ◌≡◌, refl, Option, none, some, String,
  true, false, List, arith, if◌then◌else◌,
}
use sensor_edge.Prelude.Int.{to_signed, to_unsigned, leb_ℤ, ltb_ℤ}
use sensor_edge.Prelude.Text.{codes, codes_eq, to_upper}
use sensor_edge.Go.{Outcome, ok}
use sensor_edge.Value.{Value, int, int16, uint, uint16, bytes}
use sensor_edge.Format.{parse_format}

-- int(int16(v)) for the bit pattern of v.
abbrev low_int16 : ℕ → ℤ
low_int16 w = to_signed (2 ^ 16) (w % 2 ^ 16)

-- The `switch v := raw.(type)` under INT; `none` where no case matches.
abbrev int_case : Value → Option Value
int_case (int16 v) = some (int v)
int_case (int v) = some (int (low_int16 (to_unsigned (2 ^ 16) v)))
int_case (uint16 v) = some (int (low_int16 v))
int_case (uint v) = some (int (low_int16 v))
int_case _ = none

-- The switch under UINT.
abbrev uint_case : Value → Option Value
uint_case (uint16 v) = some (uint v)
uint_case (uint v) = some (uint16 (v % 2 ^ 16))
uint_case _ = none

-- Only a []byte is parsed; any other value is returned as it is.
parse_bytes : String → Value → Outcome Value
parse_bytes format (bytes b) = parse_format format b
parse_bytes format raw = ok raw

abbrev or_parse : String → Value → Option Value → Outcome Value
or_parse format raw (some v) = ok v
or_parse format raw none = parse_bytes format raw

abbrev cast_case : List ℕ → Value → Option Value
cast_case upper raw =
    if codes_eq upper (codes "INT")
    then int_case raw
    else if codes_eq upper (codes "UINT")
    then uint_case raw
    else none

unfoldable pub parse_and_cast_format : String → Value → Outcome Value
unfolding parse_bytes to_upper codes_eq
parse_and_cast_format format raw =
    if str_eq format "" then ok raw else or_parse format raw (cast_case (to_upper format) raw)

-- The low 16 bits of a value that INT and UINT convert.
abbrev pub low16 : Value → Option ℕ
low16 (int16 v) = some (to_unsigned (2 ^ 16) v)
low16 (int v) = some (to_unsigned (2 ^ 16) v)
low16 (uint16 v) = some (v % 2 ^ 16)
low16 (uint v) = some (v % 2 ^ 16)
low16 _ = none

-- The ranges of the Go types that INT looks at.
abbrev pub InRange : Value → Type 0
InRange (int16 v) = (leb_ℤ (negsuc 32767) v ≡ true) × (ltb_ℤ v (pos 32768) ≡ true)
InRange (uint16 v) = v < 2 ^ 16
InRange _ = Unit {0}

not_empty :
    (format : String) → codes_eq (to_upper format) (codes "INT") ≡ true → str_eq format "" ≡ false
unfolding to_upper codes_eq
not_empty String.[] h = cc
not_empty (String.◌∷◌ c s) h = elim (Bool-cases (str_eq (String.◌∷◌ c s) "")) [
  | inl e ↦ absurd (cc ((eq_iff (String.◌∷◌ c s) "").0 e))
  | inr e ↦ e
]

int_case-low16 :
    (v : Value) (w : ℕ)
    → InRange v
    → low16 v ≡ some w
    → (int_case v ≡ some (int (to_signed (2 ^ 16) w))) × (w < 2 ^ 16)
int_case-low16 (int (pos v)) w r e = ground arith
int_case-low16 (int (negsuc v)) w r e = ground arith
int_case-low16 (int16 (pos v)) w r e = ground arith
int_case-low16 (int16 (negsuc v)) w r e = ground arith
int_case-low16 v w r e = ground arith

-- Under a spelling of INT in any case, an int16, int, uint16 or uint becomes an int between -32768
-- and 32767 with the same low 16 bits.
pub cast_int_low16 :
    (format : String) (v : Value) (w : ℕ)
    → codes_eq (to_upper format) (codes "INT") ≡ true
    → InRange v
    → low16 v ≡ some w
    → (z : ℤ) × (parse_and_cast_format format v ≡ ok (int z))
      × (leb_ℤ (negsuc 32767) z ≡ true)
      × (ltb_ℤ z (pos 32768) ≡ true)
      × (to_unsigned (2 ^ 16) z ≡ w)
unfolding parse_and_cast_format
cast_int_low16 format v w h r e =
    let (cased, small) = int_case-low16 v w r e in
    (
      to_signed (2 ^ 16) w,
      rw (not_empty format h, h, cased) refl,
      ground arith,
      ground arith,
      ground arith,
    )
