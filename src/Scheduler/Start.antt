-- ===== src/Scheduler/Start.antt =====
-- core/scheduler.go: the start of the collecting loops, which the three schedulers share.
use sensor_edge.Go.Time.{nanoseconds}
use sensor_edge.Prelude.Int.{leb_ℤ}
use sensor_edge.Go.{wrap, panic, err, ok, Outcome}
use sensor_edge.Prelude.Dict.{Dict}
use Prim.Native.String
use sensor_edge.Prelude.{pos, if◌then◌else◌, ◌++◌, List, ℤ, String, [], ◌∷◌}
use sensor_edge.Scheduler.{DeviceConfig}
use sensor_edge.Poll.Setup.Clients.{create, Driver}

-- DeviceRunner, without its channel.
pub record DeviceRunner (P : Type 0) : Type 0 where
  pub id : String
  pub client : P
  pub period : ℤ  -- of the ticker

module _ {P : Type 0} (d : Driver P) (registry : Dict P) where
  -- time.NewTicker panics unless its period is positive.
  abbrev pub with_ticker : DeviceConfig → Outcome (Unit {0}) × P → Outcome (DeviceRunner P)
  with_ticker dev (ok x, client) =
      let period = nanoseconds dev.interval in
      if leb_ℤ period (pos 0)
      then panic
      else ok (record { id = dev.id; client = client; period = period })
  with_ticker dev (err e, client) =
      err (wrap (String.◌++◌ "init device " (String.◌++◌ dev.id " failed")) e)
  with_ticker dev (panic, client) = panic

  abbrev pub with_client : DeviceConfig → Outcome P → Outcome (DeviceRunner P)
  with_client dev (ok client) = with_ticker dev (d.initialise dev.config client)
  with_client dev (err e) =
      err (wrap (String.◌++◌ "protocol " (String.◌++◌ dev.protocol " not supported")) e)
  with_client dev panic = panic

  -- One round of the loop over the devices, up to the start of the goroutine.
  unfoldable pub start_runner : DeviceConfig → Outcome (DeviceRunner P)
  start_runner dev = with_client dev (create dev.protocol registry)

  abbrev pub then_start :
      (List (DeviceRunner P) → Outcome (List (DeviceRunner P)) × List (DeviceRunner P))
      → Outcome (DeviceRunner P)
      → List (DeviceRunner P)
      → Outcome (List (DeviceRunner P)) × List (DeviceRunner P)
  then_start others (ok r) runners = others (runners ++ r ∷ [])
  then_start others (err e) runners = (err e, runners)
  then_start others panic runners = (panic, runners)

  -- The result, and the runners whose goroutines were started.
  unfoldable pub start_devices :
      List DeviceConfig
      → List (DeviceRunner P)
      → Outcome (List (DeviceRunner P)) × List (DeviceRunner P)
  start_devices [] runners = (ok runners, runners)
  start_devices (dev ∷ devs) runners = then_start (start_devices devs) (start_runner dev) runners

  unfoldable pub start_scheduler :
      List DeviceConfig → Outcome (List (DeviceRunner P)) × List (DeviceRunner P)
  start_scheduler devs = start_devices devs []
