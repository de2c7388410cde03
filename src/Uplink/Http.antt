-- ===== src/Uplink/Http.antt =====
-- uplink/http/http.go.
use sensor_edge.Prelude.Decimal.{decimal_text}
use sensor_edge.Go.{err, msg, ok, Outcome, Error}
use sensor_edge.Prelude.Dict.{lookup, insert, Dict}
use sensor_edge.Prelude.{leb, ltb, if◌then◌else◌, none, ℕ, [], ◌∷◌, some, Option, List, String}
use sensor_edge.Go.Show.{sprint, Printer}
use Prim.Native.String
use sensor_edge.Value.{string, Value}

pub record HttpUplink : Type 0 where
  pub url : String
  pub method : String
  pub headers : Dict String

pub record Request : Type 0 where
  pub request_method : String
  pub request_url : String
  pub request_headers : Dict String
  pub body : List ℕ

pub data Reply : Type 0 where
  failed : Error → Reply
  response : (status : ℕ) → (body : List ℕ) → Reply

-- What the channel uses of net/http.
pub record HttpLibrary (W : Type 0) : Type 0 where
  pub new_request : String → String → Option Error  -- http.NewRequest: its error
  pub canonical : String → String  -- the spelling of a header's key under which Header.Set stores it
  pub perform : Request → W → Reply × W  -- client.Do, and io.ReadAll of the body
  pub string_of : List ℕ → String  -- %s of bytes

-- NewHttpUplink: each header is the text of its value. The map of the headers is an argument of its own,
-- `none` where config["headers"] is no map.
abbrev pub string_or : String → Option Value → String
string_or otherwise (some (string s)) = s
string_or otherwise _ = otherwise

abbrev header_texts : Printer → Dict Value → Dict String → Dict String
header_texts pr [] headers = headers
header_texts pr ((k, v) ∷ rest) headers = header_texts pr rest (insert k (sprint pr v) headers)

abbrev headers_of : Printer → Option (Dict Value) → Dict String
headers_of pr none = []
headers_of pr (some h) = header_texts pr h []

unfoldable pub new_http_uplink : Printer → Dict Value → Option (Dict Value) → Outcome HttpUplink
new_http_uplink pr config headers = with_url (lookup "url" config)
  where
    with_url : Option Value → Outcome HttpUplink
    with_url (some (string url)) = ok (record {
      url = url;
      method = string_or "POST" (lookup "method" config);
      headers = headers_of pr headers;
    })
    with_url _ = err (msg "missing or invalid url")

module _ {W : Type 0} (lib : HttpLibrary W) where
  abbrev set_headers : Dict String → Dict String → Dict String
  set_headers [] all = all
  set_headers ((k, v) ∷ rest) all = set_headers rest (insert (lib.canonical k) v all)

  abbrev pub request_of : HttpUplink → List ℕ → Request
  request_of c payload = record {
    request_method = c.method;
    request_url = c.url;
    request_headers =
        insert (lib.canonical "Content-Type") "application/json" (set_headers c.headers []);
    body = payload;
  }

  abbrev status_error : Reply → Option Error
  status_error (failed e) = some e
  status_error (response status body) =
      if ltb status 200
      then some (refused status body)
      else if leb 300 status
      then some (refused status body)
      else none
    where
      refused : ℕ → List ℕ → Error
      refused status body = msg (
          String.◌++◌ "http send failed with code "
            (String.◌++◌ (decimal_text status) (String.◌++◌ ": " (lib.string_of body))))

  abbrev send_request : Option Error → HttpUplink → List ℕ → W → Option Error × W
  send_request (some e) c payload w = (some e, w)
  send_request none c payload w =
      let (reply, w') = lib.perform (request_of c payload) w in (status_error reply, w')

  unfoldable pub send : HttpUplink → List ℕ → W → Option Error × W
  send c payload w = send_request (lib.new_request c.method c.url) c payload w
