-- ===== src/Drivers/Http.antt =====
-- protocols/httpclient/http_client.go.
use text.Mathlib.Text.{◌==◌ as str_eq}
use sensor_edge.Drivers.Net.{string_at}
use sensor_edge.Go.{err, panic, ◌>>=◌, ok, Outcome}
use sensor_edge.Floats.{Floats}
use sensor_edge.Prelude.{
  none, ◌+◌, pos, ◌∷◌, ◌==◌, false, [], some, Bool, ℕ, if◌then◌else◌, Option, String, List,
}
use sensor_edge.Prelude.Dict.{lookup, Dict}
use sensor_edge.Value.{bool, int, float64, nil, PointValue, Value}

-- What the client uses of net/http, encoding/json, math/rand and the clock.
pub record Web (W : Type 0) : Type 0 where
  -- http.Get(url) and io.ReadAll of the body, whose error is dropped
  pub get : String → W → Outcome (List ℕ) × W
  pub unmarshal : List ℕ → Outcome (Dict Value)  -- into a map
  pub intn : ℕ → W → ℕ × W  -- rand.Intn
  pub float64_rand : W → ℕ × W  -- rand.Float64
  pub unix : W → ℕ

pub record HttpClient : Type 0 where
  pub url : String
  pub method : String

-- NewHTTPClient
abbrev pub new_http_client : HttpClient
new_http_client = record { url = ""; method = "" }

-- mock, ok := config["mock"].(bool); ok && mock
abbrev is_mock : Option Value → Bool
is_mock (some (bool b)) = b
is_mock _ = false

abbrev init_with :
    Outcome String → Outcome String → Bool → HttpClient → Outcome (Unit {0}) × HttpClient
init_with (ok url) (ok method) mock h =
    (ok tt, record { url = if mock then "MOCK" else url; method = method })
init_with (ok url) _ mock h = (panic, record h { url = url })
init_with _ _ mock h = (panic, h)

unfoldable pub init : Dict Value → HttpClient → Outcome (Unit {0}) × HttpClient
init config h =
    init_with (string_at "url" config) (string_at "method" config) (is_mock (lookup "mock" config))
      h

abbrev pub good : String → Value → ℕ → PointValue
good id v now = record { point_id = id; value = v; quality = "good"; timestamp = now }

module _ {W : Type 0} (fl : Floats) (web : Web W) where
  -- 20.0 + rand.Float64()*80.0
  abbrev temperature : ℕ → ℕ
  temperature r = fl.add 0x4034000000000000 (fl.mul r 0x4054000000000000)

  unfoldable pub mock_values : String → W → List PointValue × W
  mock_values device w =
      let now = web.unix w in
      if str_eq device "plc1"
      then (let (status, w1) = web.intn 2 w in
          let (speed, w2) = web.intn 2000 w1 in
          (
            good "d100" (bool (status == 1)) now ∷ good "d101" (int (pos (400 + speed))) now ∷ [],
            w2,
          ))
      else if str_eq device "sensor_http"
      then (let (r, w1) = web.float64_rand w in
          (good "temperature" (float64 (temperature r)) now ∷ [], w1))
      else ([], w)

  -- A missing key is a nil interface.
  abbrev or_nil : Option Value → Value
  or_nil (some v) = v
  or_nil none = nil

  -- A request that fails gives the value 22.0 of quality "mock", and no error.
  abbrev answer_values : Outcome (List ℕ) → ℕ → Outcome (List PointValue)
  answer_values (ok body) now =
      web.unmarshal body
      >>= (λ parsed. ok (good "http_temp" (or_nil (lookup "temp" parsed)) now ∷ []))
  answer_values (err e) now = ok (
      record {
        point_id = "http_temp";
        value = float64 0x4036000000000000;
        quality = "mock";
        timestamp = now;
      }
      ∷ [])
  answer_values panic now = panic

  unfoldable pub read : HttpClient → String → W → Outcome (List PointValue) × W
  unfolding mock_values
  read h device w =
      if str_eq h.url "MOCK"
      then (let (vs, w') = mock_values device w in (ok vs, w'))
      else (let (r, w') = web.get h.url w in (answer_values r (web.unix w'), w'))

-- ReadBatch reads nothing.
abbrev pub read_batch : HttpClient → List String → Outcome (List PointValue)
read_batch h points = ok []

-- Write prints, and Close and Reconnect do nothing.
abbrev pub write : HttpClient → String → Value → Outcome (Unit {0})
write h point value = ok tt

abbrev pub close : HttpClient → Outcome (Unit {0})
close h = ok tt

abbrev pub reconnect : HttpClient → Outcome (Unit {0})
reconnect h = ok tt
