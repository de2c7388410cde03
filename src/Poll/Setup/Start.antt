-- ===== src/Poll/Setup/Start.antt =====
-- main.go: the start of the acquisition for one point set.
use sensor_edge.Poll.Setup.Devices.{interval_of}
use sensor_edge.Poll.Setup.Config.{find_params, or_default, effective_config, DeviceConfigWithMeta}
use sensor_edge.Poll.Setup.Clients.{get_or_create_client, slave_or_one, ClientPool, Driver}
use sensor_edge.Poll.Points.{DevicePointSetV2}
use sensor_edge.Go.{panic, ok, err, Outcome}
use sensor_edge.Prelude.Dict.{insert, lookup, Dict}
use sensor_edge.Prelude.{◌++◌, ℤ, zero, suc, [], none, some, ℕ, ◌∷◌, List, String, Option}
use sensor_edge.Floats.{Floats}
use sensor_edge.Value.{Value}

-- What the goroutine of a point set is started with. In the code it holds the device's map itself:
-- later point sets of the device may add entries to it and change none; the one entry that it reads,
-- slave_id, is there by then, since inject_device_meta puts it.
pub record Started : Type 0 where
  pub set : DevicePointSetV2
  pub config : Dict Value
  pub client : ℕ  -- its place in the pool
  pub interval : ℤ

-- The devices, whose maps are filled in place, and the pool.
pub record Acquisition (P : Type 0) : Type 0 where
  pub devices : Dict DeviceConfigWithMeta
  pub pool : ClientPool P

-- devConf is a copy of the entry of devMap, so that a map that was nil is seen here only, and any other
-- one is the device's own.
abbrev pub fill_config :
    String
    → DeviceConfigWithMeta
    → Dict Value
    → Dict DeviceConfigWithMeta
    → Dict DeviceConfigWithMeta
fill_config id dev config devices = filled dev.config
  where
    filled : Option (Dict Value) → Dict DeviceConfigWithMeta
    filled none = devices
    filled (some own) = insert id (record dev { config = some config }) devices

abbrev of_protocol : Option (List (Dict Value)) → List (Dict Value)
of_protocol (some ps) = ps
of_protocol none = []

abbrev pub protocol_of : DevicePointSetV2 → DeviceConfigWithMeta → String
protocol_of set dev = or_default set.protocol dev.device_meta.protocol

-- protoParams
abbrev pub params_of :
    Dict (List (Dict Value)) → DevicePointSetV2 → DeviceConfigWithMeta → Option (Dict Value)
params_of protocols set dev =
    find_params (or_default set.protocol_name dev.device_meta.protocol_name)
      (of_protocol (lookup (protocol_of set dev) protocols))

module _ {P : Type 0} (d : Driver P) (fl : Floats) (parse_duration : String → Option ℤ)
    (registry : Dict P) where
  abbrev pub choose_at : ℕ → ℕ → List P → List P
  choose_at slave client [] = []
  choose_at slave zero (p ∷ ps) = d.choose slave p ∷ ps
  choose_at slave (suc client) (p ∷ ps) = p ∷ choose_at slave client ps

  -- `none` where a warning or an error is printed and the point set is left out.
  abbrev pub with_pooled :
      DevicePointSetV2
      → Dict Value
      → Dict DeviceConfigWithMeta
      → Outcome ℕ × ClientPool P
      → Outcome (Option Started) × Acquisition P
  with_pooled set config devices (ok client, pool) =
      let slave = slave_or_one fl (lookup "slave_id" config) in
      (
        ok (
            some (record {
              set = set;
              config = config;
              client = client;
              interval = interval_of fl parse_duration (lookup "interval" config);
            })),
        record {
          devices = devices;
          pool = record pool { clients = choose_at slave client pool.clients };
        },
      )
  with_pooled set config devices (err e, pool) =
      (ok none, record { devices = devices; pool = pool })
  with_pooled set config devices (panic, pool) = (panic, record { devices = devices; pool = pool })

  abbrev pub with_params :
      DevicePointSetV2
      → DeviceConfigWithMeta
      → String
      → Option (Dict Value)
      → Acquisition P
      → Outcome (Option Started) × Acquisition P
  with_params set dev protocol none a = (ok none, a)
  with_params set dev protocol (some params) a =
      let config = effective_config dev params in
      with_pooled set config (fill_config set.device_id dev config a.devices)
        (get_or_create_client d fl registry protocol config a.pool)

  abbrev pub with_device :
      Dict (List (Dict Value))
      → DevicePointSetV2
      → Option DeviceConfigWithMeta
      → Acquisition P
      → Outcome (Option Started) × Acquisition P
  with_device protocols set none a = (ok none, a)
  with_device protocols set (some dev) a =
      with_params set dev (protocol_of set dev) (params_of protocols set dev) a

  -- A round of the loop over pointSetsV2, up to the start of its goroutine.
  unfoldable pub start_device :
      Dict (List (Dict Value))
      → DevicePointSetV2
      → Acquisition P
      → Outcome (Option Started) × Acquisition P
  start_device protocols set a = with_device protocols set (lookup set.device_id a.devices) a

  abbrev pub append_started : List Started → Option Started → List Started
  append_started all none = all
  append_started all (some s) = all ++ s ∷ []

  abbrev pub then_start :
      (List Started → Acquisition P → Outcome (List Started) × Acquisition P)
      → List Started
      → Outcome (Option Started) × Acquisition P
      → Outcome (List Started) × Acquisition P
  then_start others all (ok o, a) = others (append_started all o) a
  then_start others all (err e, a) = (err e, a)
  then_start others all (panic, a) = (panic, a)

  -- The loop: the goroutines that it starts, in order.
  unfoldable pub start_all :
      Dict (List (Dict Value))
      → List DevicePointSetV2
      → List Started
      → Acquisition P
      → Outcome (List Started) × Acquisition P
  start_all protocols [] all a = (ok all, a)
  start_all protocols (set ∷ sets) all a =
      then_start (start_all protocols sets) all (start_device protocols set a)
