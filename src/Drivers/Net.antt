-- ===== src/Drivers/Net.antt =====
-- What the socket drivers use of Go's net package. The world `W` holds the connections, which are named
-- by numbers, and the clock.
use sensor_edge.Value.{string, Value}
use sensor_edge.Prelude.Text.{codes}
use sensor_edge.Prelude.Dict.{lookup, Dict}
use sensor_edge.Go.{panic, ok, Error, Outcome}
use sensor_edge.Prelude.{
  ◌%◌, ◌^◌, ◌/◌, ◌+◌, some, [], Option, ltb, ◌++◌, if◌then◌else◌, ◌∷◌, ℕ, List, String,
}

pub record Net (W : Type 0) : Type 0 where
  -- net.DialTimeout("tcp", address, 3*time.Second)
  pub dial : String → W → Outcome ℕ × W
  pub write : ℕ → List ℕ → W → W  -- conn.Write, whose results are not looked at
  -- conn.Read into a buffer of 1024 zeros: the bytes that it put there, and its error
  pub read : ℕ → W → (List ℕ × Option Error) × W
  pub close : ℕ → W → Option Error × W
  pub unix : W → ℕ

-- config[key].(string), which panics where it is no string
abbrev pub string_at : String → Dict Value → Outcome String
string_at key config = must_string (lookup key config)
  where
    must_string : Option Value → Outcome String
    must_string (some (string s)) = ok s
    must_string _ = panic

-- The bytes of one code point in UTF-8.
abbrev utf8 : ℕ → List ℕ
utf8 c =
    if ltb c 0x80
    then c ∷ []
    else if ltb c 0x800
    then (0xC0 + c / 2 ^ 6) ∷ (0x80 + c % 2 ^ 6) ∷ []
    else if ltb c 0x10000
    then (0xE0 + c / 2 ^ 12) ∷ (0x80 + c / 2 ^ 6 % 2 ^ 6) ∷ (0x80 + c % 2 ^ 6) ∷ []
    else (0xF0 + c / 2 ^ 18)
      ∷ (0x80 + c / 2 ^ 12 % 2 ^ 6)
      ∷ (0x80 + c / 2 ^ 6 % 2 ^ 6)
      ∷ (0x80 + c % 2 ^ 6)
      ∷ []

abbrev utf8_all : List ℕ → List ℕ
utf8_all [] = []
utf8_all (c ∷ cs) = utf8 c ++ utf8_all cs

-- []byte(s)
unfoldable pub bytes_of : String → List ℕ
bytes_of s = utf8_all (codes s)
