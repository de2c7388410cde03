-- ===== src/Examples/Starting.antt =====
-- Starting two devices behind one gateway.
use sensor_edge.Poll.Setup.Config.{DeviceConfigWithMeta, effective_config}
use sensor_edge.Poll.Setup.Clients.{
  create, slave_or_one, cached, get_or_create_client, Driver, ClientPool, client_key,
}
use sensor_edge.Value.{int, string, Value}
use sensor_edge.Go.{ok}
use sensor_edge.Prelude.Dict.{lookup, Dict}
use sensor_edge.Prelude.{none, ◌+◌, refl, ◌≡◌, false, ℤ, ℕ, pos, [], ◌∷◌}
use sensor_edge.Examples.Values.{counting}
use sensor_edge.Poll.Setup.Precedence.{client_key-effective_config}

abbrev pub gateway : ℤ → DeviceConfigWithMeta
gateway slave = record {
  device_meta = record {
    id = "meter";
    name = "Meter";
    description = "";
    protocol = "modbus_tcp";
    protocol_name = "line1";
    interval = "10s";
    enable_ping = false;
    ip = "";
    port = pos 502;
    slave_id = slave;
  };
  config = none;
}

abbrev pub line1 : Dict Value
line1 = ("name", string "line1") ∷ ("ip", string "10.0.0.1") ∷ ("timeout", int (pos 2000)) ∷ []

client_key-effective_config_example :
    (client_key counting "modbus_tcp" (effective_config (gateway (pos 1)) line1)
      ≡ client_key counting "modbus_tcp" (effective_config (gateway (pos 1)) []))
    × (slave_or_one counting (lookup "slave_id" (effective_config (gateway (pos 1)) line1))
        ≡ slave_or_one counting (lookup "slave_id" (effective_config (gateway (pos 1)) [])))
client_key-effective_config_example =
    client_key-effective_config counting "modbus_tcp" (gateway (pos 1)) line1 []

-- A driver whose state counts its calls of Init.
abbrev pub counter : Driver ℕ
counter = record { initialise = λ config n. (ok tt, n + 1); choose = λ slave n. n }

abbrev pub drivers : Dict ℕ
drivers = ("modbus_tcp", 0) ∷ []

abbrev no_clients : ClientPool ℕ
no_clients = record { cache = []; clients = [] }

abbrev at_gateway : ℤ → Dict Value
at_gateway slave =
    ("ip", string "10.0.0.1") ∷ ("port", int (pos 502)) ∷ ("slave_id", int slave) ∷ []

first_client :
    (get_or_create_client counter counting drivers "modbus_tcp" (at_gateway (pos 1)) no_clients).0
    ≡ ok 0
unfolding get_or_create_client cached create lookup
first_client = refl

same_gateway :
    client_key counting "modbus_tcp" (at_gateway (pos 2))
    ≡ client_key counting "modbus_tcp" (at_gateway (pos 1))
unfolding lookup
same_gateway = refl
