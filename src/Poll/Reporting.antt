-- ===== src/Poll/Reporting.antt =====
-- main.go: the end of a round, which sends its report, and what each function group collects beside it.
use sensor_edge.Go.{panic, err, ok, Outcome}
use sensor_edge.Poll.Points.{DevicePointSetV2}
use text.Mathlib.Text.{◌==◌ as str_eq}
use sensor_edge.Poll.Round.{poll_round, Poll, DataReport}
use sensor_edge.Uplink.Manager.{encode_data_report, send_to_all, Uplink, Channels}
use sensor_edge.Prelude.Dict.{insert, lookup, Dict}
use sensor_edge.Edge.{avg, buffer_key, PointBuffer, AggregateRule, Govaluate}
use sensor_edge.Poll.Convert.{Numerics}
use sensor_edge.Poll.Retry.{Protocol}
use sensor_edge.Floats.{Floats}
use sensor_edge.Prelude.{ℕ, List, if◌then◌else◌, Option, String, none, some, [], ◌∷◌}
use sensor_edge.Value.{float64, Value}
use Prim.Native.String

module _ (fl : Floats) (device : String) where
  abbrev with_average : AggregateRule → Option PointBuffer → Dict Value → Dict Value
  with_average rule none metrics = metrics
  with_average rule (some buf) metrics =
      if str_eq rule.method "avg"
      then insert (String.◌++◌ rule.point "_avg") (float64 (avg fl buf)) metrics
      else metrics

  -- The averages of the device's aggregate rules. They go into a map of the group, which nothing reads.
  unfoldable pub group_metrics : Dict PointBuffer → List AggregateRule → Dict Value → Dict Value
  group_metrics buffers [] metrics = metrics
  group_metrics buffers (rule ∷ rules) metrics = group_metrics buffers rules (
      if str_eq rule.device_id device
      then with_average rule (lookup (buffer_key device rule.point) buffers) metrics
      else metrics)

-- A round with the sending of its report.
module _ {P W : Type 0} (c : Protocol P) (n : Numerics) (g : Govaluate) (lib : Channels W)
    (marshal : DataReport → List ℕ) (now : W → ℕ) (uplinks : List Uplink) where
  abbrev send_report : Outcome DataReport × Poll P → W → Outcome (Unit {0}) × Poll P × W
  send_report (ok report, s) w =
      let (r, w') =
        send_to_all lib uplinks
          (encode_data_report marshal report.timestamp report.device_id report.values report.alarms
            report.metrics)
          w in
      (r, s, w')
  send_report (err e, s) w = (err e, s, w)
  send_report (panic, s) w = (panic, s, w)

  unfoldable pub poll_and_send :
      DevicePointSetV2 → Dict Value → Poll P → W → Outcome (Unit {0}) × Poll P × W
  poll_and_send set config s w = send_report (poll_round c n g set config (now w) s) w
