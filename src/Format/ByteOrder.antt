-- ===== src/Format/ByteOrder.antt =====
-- The byte order that the name of a wide format spells: its letters A to H are the positions of the
-- bytes, most significant first. What `parse_format` makes of the bytes is compared with that.
use sensor_edge.Prelude.{
  inl, inr, dec_le, ◌⊎◌, ℕ, ◌+◌, ◌*◌, ◌-◌, ◌^◌, ◌≤◌, ◌≡◌, refl, String, List, [], ◌∷◌, map, arith,
  leb, ◌==◌, ◌&&◌, length, if◌then◌else◌,
}
use sensor_edge.Prelude.Int.{to_signed}
use sensor_edge.Prelude.Text.{codes}
use sensor_edge.Go.{ok}
use sensor_edge.Prelude.{◌<◌}
use sensor_edge.Go.{Error, err, msg}
use sensor_edge.Value.{Value, int32, float32, float64}
use sensor_edge.Format.Bytes.{byte}
use sensor_edge.Format

pub data WideFormat : Type 0 where
  long_abcd long_cdab long_badc long_dcba : WideFormat
  float_abcd float_cdab float_badc float_dcba : WideFormat
  double_abcdefgh double_ghefcdab double_badcfehg double_hgfedcba : WideFormat

abbrev pub name : WideFormat → String
name long_abcd = Format.format_long_abcd
name long_cdab = Format.format_long_cdab
name long_badc = Format.format_long_badc
name long_dcba = Format.format_long_dcba
name float_abcd = Format.format_float_abcd
name float_cdab = Format.format_float_cdab
name float_badc = Format.format_float_badc
name float_dcba = Format.format_float_dcba
name double_abcdefgh = Format.format_double_abcdefgh
name double_ghefcdab = Format.format_double_ghefcdab
name double_badcfehg = Format.format_double_badcfehg
name double_hgfedcba = Format.format_double_hgfedcba

abbrev after_space : List ℕ → List ℕ
after_space [] = []
after_space (c ∷ s) = if c == b' ' then s else after_space s

abbrev letters : List ℕ → List ℕ
letters [] = []
letters (c ∷ s) =
    let rest = letters s in if leb b'A' c && leb c b'H' then (c - b'A') ∷ rest else rest

-- The positions that the name gives, most significant first.
abbrev pub positions : WideFormat → List ℕ
positions f = letters (after_space (codes (name f)))

abbrev pub width : WideFormat → ℕ
width f = length (positions f)

-- The number whose base 256 digits are the given bytes, most significant first.
abbrev pub digits_value : ℕ → List ℕ → ℕ
digits_value acc [] = acc
digits_value acc (b ∷ bs) = digits_value (acc * 256 + b) bs

-- The Go value that a format's bit pattern is returned as.
abbrev pub typed : WideFormat → ℕ → Value
typed long_abcd w = int32 (to_signed (2 ^ 32) w)
typed long_cdab w = int32 (to_signed (2 ^ 32) w)
typed long_badc w = int32 (to_signed (2 ^ 32) w)
typed long_dcba w = int32 (to_signed (2 ^ 32) w)
typed float_abcd w = float32 w
typed float_cdab w = float32 w
typed float_badc w = float32 w
typed float_dcba w = float32 w
typed _ w = float64 w

abbrev pub named_value : WideFormat → List ℕ → Value
named_value f raw = typed f (digits_value 0 (map (byte raw) (positions f)))

width_double : width double_ghefcdab ≡ 8
width_double = refl

-- The format whose name spells the order in which a format is decoded: its own, but for "Long CD AB".
abbrev pub decoded_as : WideFormat → WideFormat
decoded_as long_cdab = long_badc
decoded_as f = f

decoded :
    (f : WideFormat) (raw : List ℕ)
    → width f ≤ length raw
    → Format.parse_format (name f) raw ≡ ok (named_value (decoded_as f) raw)
unfolding Format.parse_format
decoded long_cdab raw w = ground arith
decoded _ raw w = ground arith

short :
    (f : WideFormat) (raw : List ℕ)
    → length raw < width f
    → (e : Error) × (Format.parse_format (name f) raw ≡ err e)
unfolding Format.parse_format
short long_abcd raw h = (msg "Long AB CD需4字节", ground arith)
short long_cdab raw h = (msg "Long CD AB需4字节", ground arith)
short long_badc raw h = (msg "Long BA DC需4字节", ground arith)
short long_dcba raw h = (msg "Long DC BA需4字节", ground arith)
short float_abcd raw h = (msg "Float AB CD需4字节", ground arith)
short float_cdab raw h = (msg "Float CD AB需4字节", ground arith)
short float_badc raw h = (msg "Float BA DC需4字节", ground arith)
short float_dcba raw h = (msg "Float DC BA需4字节", ground arith)
short double_abcdefgh raw h = (msg "Double AB CD EF GH需8字节", ground arith)
short double_ghefcdab raw h = (msg "Double GH EF CD AB需8字节", ground arith)
short double_badcfehg raw h = (msg "Double BA DC FE HG需8字节", ground arith)
short double_hgfedcba raw h = (msg "Double HG FE DC BA需8字节", ground arith)

-- A wide format fails, with an error and no panic, on fewer bytes than its name has letters. Otherwise it
-- decodes the bytes in the order that the letters of its name give, but "Long CD AB" in the order of
-- "Long BA DC"; the bytes behind the format's width are not read.
pub parse_format-wide :
    (f : WideFormat) (raw : List ℕ)
    → ((length raw < width f) × ((e : Error) × (Format.parse_format (name f) raw ≡ err e)))
      ⊎ ((width f ≤ length raw)
          × (Format.parse_format (name f) raw ≡ ok (named_value (decoded_as f) raw)))
parse_format-wide f raw = elim (dec_le (width f) (length raw)) [
  | yes enough ↦ inr (enough, decoded f raw enough)
  | no few ↦ let less : length raw < width f = omega arith in inl (less, short f raw less)
]
