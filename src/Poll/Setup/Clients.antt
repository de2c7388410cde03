-- ===== src/Poll/Setup/Clients.antt =====
-- main.go and protocols/registry.go: the constructors of the drivers, and the pool of clients.
use sensor_edge.Prelude.Int.{leb_ℤ, to_unsigned}
use text.Mathlib.Text.{◌==◌ as str_eq}
use sensor_edge.Go.{panic, msg, ok, err, Outcome}
use sensor_edge.Prelude.Dict.{lookup, insert, Dict}
use sensor_edge.Prelude.{
  ◌++◌, ◌^◌, length, [], ◌&&◌, pos, none, if◌then◌else◌, some, ℕ, ℤ, ◌∷◌, List, String, Option,
  Bool,
}
use sensor_edge.Floats.{Floats}
use Prim.Native.String
use sensor_edge.Value.{Value, string, int, float64}

-- ClientKey
pub record ClientKey : Type 0 where
  pub client_protocol : String
  pub client_ip : String
  pub client_port : ℤ

abbrev key_eq : ClientKey → ClientKey → Bool
key_eq a b =
    str_eq a.client_protocol b.client_protocol
    && str_eq a.client_ip b.client_ip
    && leb_ℤ a.client_port b.client_port
    && leb_ℤ b.client_port a.client_port

abbrev string_or_empty : Option Value → String
string_or_empty (some (string s)) = s
string_or_empty _ = ""

module _ (fl : Floats) where
  abbrev int_or_zero : Option Value → ℤ
  int_or_zero (some (int v)) = v
  int_or_zero (some (float64 v)) = fl.to_int v
  int_or_zero _ = pos 0

  abbrev pub client_key : String → Dict Value → ClientKey
  client_key protocol config = record {
    client_protocol = protocol;
    client_ip = string_or_empty (lookup "ip" config);
    client_port = int_or_zero (lookup "port" config);
  }

  -- byte(1) where the configuration has no int and no float64.
  abbrev pub slave_or_one : Option Value → ℕ
  slave_or_one (some (int v)) = to_unsigned (2 ^ 8) v
  slave_or_one (some (float64 v)) = to_unsigned (2 ^ 8) (fl.to_int v)
  slave_or_one _ = 1

-- registry: the constructors by name, each giving a new client in the state P.
unfoldable pub register : {P : Type 0} → String → P → Dict P → Dict P
register name constructor registry = insert name constructor registry

unfoldable pub create : {P : Type 0} → String → Dict P → Outcome P
create name registry = elim (lookup name registry) [
  | none ↦ err (msg (String.◌++◌ "unknown protocol: " name))
  | some client ↦ ok client
]

-- The methods of Protocol that are called here; set_slave is for a *modbus.ModbusTCP.
pub record Driver (P : Type 0) : Type 0 where
  pub initialise : Dict Value → P → Outcome (Unit {0}) × P
  pub choose : ℕ → P → P

-- clientCache: the clients are shared, so that the cache names them by their place in `clients`.
pub record ClientPool (P : Type 0) : Type 0 where
  pub cache : List (ClientKey × ℕ)
  pub clients : List P

unfoldable pub cached : ClientKey → List (ClientKey × ℕ) → Option ℕ
cached key [] = none
cached key ((k, client) ∷ rest) = if key_eq k key then some client else cached key rest

module _ {P : Type 0} (d : Driver P) (fl : Floats) (registry : Dict P) where
  -- A client whose Init failed is dropped.
  abbrev pub keep_client :
      ClientKey → ClientPool P → Outcome (Unit {0}) × P → Outcome ℕ × ClientPool P
  keep_client key pool (ok _, client) = (
    ok (length pool.clients),
    record {
      cache = (key, length pool.clients) ∷ pool.cache;
      clients = pool.clients ++ client ∷ [];
    },
  )
  keep_client key pool (err e, client) = (err e, pool)
  keep_client key pool (panic, client) = (panic, pool)

  abbrev pub new_client :
      ClientKey → Dict Value → ClientPool P → Outcome P → Outcome ℕ × ClientPool P
  new_client key config pool (ok client) = keep_client key pool (d.initialise config client)
  new_client key config pool (err e) = (err e, pool)
  new_client key config pool panic = (panic, pool)

  abbrev pub found_or_new : String → Dict Value → ClientPool P → Option ℕ → Outcome ℕ × ClientPool P
  found_or_new protocol config pool (some client) = (ok client, pool)
  found_or_new protocol config pool none =
      new_client (client_key fl protocol config) config pool (create protocol registry)

  unfoldable pub get_or_create_client :
      String → Dict Value → ClientPool P → Outcome ℕ × ClientPool P
  get_or_create_client protocol config pool =
      found_or_new protocol config pool (cached (client_key fl protocol config) pool.cache)
