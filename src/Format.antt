-- ===== src/Format.antt =====
-- utils/format_parser.go: typed numbers out of the raw bytes of a point.
pub mod Bytes
pub mod ByteOrder
pub mod Cast
pub mod RoundTrip
use text.Mathlib.Text.{◌==◌ as str_eq}
use Prim.Native.String
use sensor_edge.Prelude.{ℕ, ◌^◌, String, List, [], ◌∷◌, ◌++◌, ltb, length, if◌then◌else◌}
use sensor_edge.Prelude.Int.{to_signed}
use sensor_edge.Go.{Outcome, ok, err, msg}
use sensor_edge.Value.{Value, int16, int32, uint16, float32, float64}
use Bytes.{byte, be16, be32, be64, le32, le64}

abbrev pub format_int : String
format_int = "INT"

abbrev pub format_uint : String
format_uint = "UINT"

abbrev pub format_long_abcd : String
format_long_abcd = "Long AB CD"

abbrev pub format_long_cdab : String
format_long_cdab = "Long CD AB"

abbrev pub format_long_badc : String
format_long_badc = "Long BA DC"

abbrev pub format_long_dcba : String
format_long_dcba = "Long DC BA"

abbrev pub format_float_abcd : String
format_float_abcd = "Float AB CD"

abbrev pub format_float_cdab : String
format_float_cdab = "Float CD AB"

abbrev pub format_float_badc : String
format_float_badc = "Float BA DC"

abbrev pub format_float_dcba : String
format_float_dcba = "Float DC BA"

abbrev pub format_double_abcdefgh : String
format_double_abcdefgh = "Double AB CD EF GH"

abbrev pub format_double_ghefcdab : String
format_double_ghefcdab = "Double GH EF CD AB"

abbrev pub format_double_badcfehg : String
format_double_badcfehg = "Double BA DC FE HG"

abbrev pub format_double_hgfedcba : String
format_double_hgfedcba = "Double HG FE DC BA"

-- `if len(raw) < n { return nil, error }` in front of a case
needs : ℕ → String → List ℕ → Value → Outcome Value
needs n text raw v = if ltb (length raw) n then err (msg text) else ok v

abbrev signed16 : ℕ → Value
signed16 w = int16 (to_signed (2 ^ 16) w)

abbrev signed32 : ℕ → Value
signed32 w = int32 (to_signed (2 ^ 32) w)

pick4 : List ℕ → ℕ → ℕ → ℕ → ℕ → List ℕ
pick4 raw i j k l = byte raw i ∷ byte raw j ∷ byte raw k ∷ byte raw l ∷ []

unfoldable pub parse_format : String → List ℕ → Outcome Value
unfolding needs pick4 be16 be32 be64 le32 le64
parse_format format raw =
    if str_eq format format_int
    then needs 2 "INT需2字节" raw (signed16 (be16 raw))
    else if str_eq format format_uint
    then needs 2 "UINT需2字节" raw (uint16 (be16 raw))
    else if str_eq format format_long_abcd
    then needs 4 "Long AB CD需4字节" raw (signed32 (be32 raw))
    else if str_eq format format_long_cdab
    then needs 4 "Long CD AB需4字节" raw (signed32 (le32 (pick4 raw 2 3 0 1)))
    else if str_eq format format_long_badc
    then needs 4 "Long BA DC需4字节" raw (signed32 (be32 (pick4 raw 1 0 3 2)))
    else if str_eq format format_long_dcba
    then needs 4 "Long DC BA需4字节" raw (signed32 (le32 raw))
    else if str_eq format format_float_abcd
    then needs 4 "Float AB CD需4字节" raw (float32 (be32 raw))
    else if str_eq format format_float_cdab
    then needs 4 "Float CD AB需4字节" raw (float32 (be32 (pick4 raw 2 3 0 1)))
    else if str_eq format format_float_badc
    then needs 4 "Float BA DC需4字节" raw (float32 (be32 (pick4 raw 1 0 3 2)))
    else if str_eq format format_float_dcba
    then needs 4 "Float DC BA需4字节" raw (float32 (le32 raw))
    else if str_eq format format_double_abcdefgh
    then needs 8 "Double AB CD EF GH需8字节" raw (float64 (be64 raw))
    else if str_eq format format_double_ghefcdab
    then needs 8 "Double GH EF CD AB需8字节" raw (
        float64
          (be64 (byte raw 6 ∷ byte raw 7 ∷ pick4 raw 4 5 2 3 ++ byte raw 0 ∷ byte raw 1 ∷ [])))
    else if str_eq format format_double_badcfehg
    then needs 8 "Double BA DC FE HG需8字节" raw
        (float64 (be64 (pick4 raw 1 0 3 2 ++ pick4 raw 5 4 7 6)))
    else if str_eq format format_double_hgfedcba
    then needs 8 "Double HG FE DC BA需8字节" raw (float64 (le64 raw))
    else err (msg (String.◌++◌ "未知format: " format))
