-- ===== src/Format/Bytes.antt =====
-- encoding/binary, as far as utils/format_parser.go and protocols/modbus use it: words out of bytes,
-- and bytes out of words. The callers have tested the length.
use sensor_edge.Prelude.{ℕ, ◌+◌, ◌*◌, ◌/◌, ◌%◌, ◌^◌, List, [], ◌∷◌, get_or}

abbrev pub byte : List ℕ → ℕ → ℕ
byte raw i = get_or raw i 0

-- binary.BigEndian.Uint16, Uint32 and Uint64
unfoldable pub be16 : List ℕ → ℕ
be16 b = byte b 1 + byte b 0 * 2 ^ 8

unfoldable pub be32 : List ℕ → ℕ
be32 b = byte b 3 + byte b 2 * 2 ^ 8 + byte b 1 * 2 ^ 16 + byte b 0 * 2 ^ 24

unfoldable pub be64 : List ℕ → ℕ
be64 b =
    byte b 7
    + byte b 6 * 2 ^ 8
    + byte b 5 * 2 ^ 16
    + byte b 4 * 2 ^ 24
    + byte b 3 * 2 ^ 32
    + byte b 2 * 2 ^ 40
    + byte b 1 * 2 ^ 48
    + byte b 0 * 2 ^ 56

-- binary.LittleEndian.Uint32 and Uint64
unfoldable pub le32 : List ℕ → ℕ
le32 b = byte b 0 + byte b 1 * 2 ^ 8 + byte b 2 * 2 ^ 16 + byte b 3 * 2 ^ 24

unfoldable pub le64 : List ℕ → ℕ
le64 b =
    byte b 0
    + byte b 1 * 2 ^ 8
    + byte b 2 * 2 ^ 16
    + byte b 3 * 2 ^ 24
    + byte b 4 * 2 ^ 32
    + byte b 5 * 2 ^ 40
    + byte b 6 * 2 ^ 48
    + byte b 7 * 2 ^ 56

-- binary.BigEndian.PutUint16 and PutUint32, as the bytes written.
abbrev pub put16 : ℕ → List ℕ
put16 v = v / 2 ^ 8 % 256 ∷ v % 256 ∷ []

abbrev pub put32 : ℕ → List ℕ
put32 v = v / 2 ^ 24 % 256 ∷ v / 2 ^ 16 % 256 ∷ v / 2 ^ 8 % 256 ∷ v % 256 ∷ []
