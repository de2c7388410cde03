-- ===== src/Scheduler/Ticks.antt =====
-- What a tick of the third scheduler collects, checks and sends.
use sensor_edge.Edge.Alarms.{AreAlarms, apply_rules-AreAlarms}
use sensor_edge.Scheduler.Mapped.{
  IsEntry, ArePointAlarms, last_named, map_points-IsEntry, map_points-ArePointAlarms,
}
use sensor_edge.Uplink.Everyone.{send_to_all_lem, has_no_client, any}
use sensor_edge.Poll.Round.{DataReport}
use sensor_edge.Uplink.Manager.{send_to_all, encode_data_report, Uplink, Channels}
use sensor_edge.Go.{◌>>=◌, panic, ok, Outcome}
use sensor_edge.Poll.Points.{PointMapping}
use sensor_edge.Scheduler.{collect, tick, tick_sent, raw_values, tick_with_uplink, Collected}
use sensor_edge.Value.{PointValue, Value}
use sensor_edge.Prelude.Dict.{lookup, Dict}
use sensor_edge.Floats.{Floats}
use sensor_edge.Edge.{RuleEngine, Govaluate}
use sensor_edge.Prelude.{
  ℕ, refl, ap, ◌∙◌, Bool, ◌≡◌, if◌then◌else◌, String, List, some, [], true, false,
}

module _ (g : Govaluate) (fl : Floats) {P : Type 0}
    (read : String → P → Outcome (List PointValue) × P) {W : Type 0} (lib : Channels W)
    (marshal : DataReport → List ℕ) (now : W → ℕ) (uplinks : List Uplink) where
  -- What a tick collects out of the values that Read gave, and the engine after it.
  abbrev pub IsCollected :
      String → List PointMapping → List PointValue → RuleEngine → Collected → RuleEngine → Type 0
  IsCollected device points values re out re' =
      ((name : String) → IsEntry g fl values (last_named name points) (lookup name out.mapped))
      × ArePointAlarms g fl values points out.alarms
      × AreAlarms g fl device out.mapped re.alarm_rules re'.last_alarms

  -- SendToAll with the report of the tick.
  abbrev pub sent_report : String → Collected → W → Outcome (Unit {0}) × W
  sent_report device out w =
      send_to_all lib uplinks
        (marshal (record {
          device_id = device;
          timestamp = now w;
          values = out.mapped;
          alarms = out.alarms;
          metrics = [];
        }))
        w

  sent_or_panic :
      (device : String) (out : Collected) (w : W)
      → (tick_sent g fl read lib marshal now uplinks device (ok (some out)) w).0
        ≡ (if any has_no_client uplinks then panic else ok (some out))
  sent_or_panic device out w =
      ap (λ r. r >>= (λ x. ok (some out))) (send_to_all_lem lib uplinks _ w)
      ∙ through (any has_no_client uplinks)
    where
      through :
          (b : Bool)
          → ((if b then panic else ok (tt {0})) >>= (λ (x : Unit {0}). ok (some out)))
            ≡ (if b then panic else ok (some out))
      through true = refl
      through false = refl

  -- A tick whose Read gives values maps each name to the value of the last point with it: the last value
  -- that was read for its address, or nil, with the point's transform where that parses and evaluates.
  -- It lists the alarms of those points whose alarm is enabled and whose condition is true for the mapped
  -- value, in their order, and leaves the engine with the alarms that its rules raise on the mapped
  -- values. The report with these values and alarms, and no metrics, is sent; the tick panics if a channel
  -- has no client, and otherwise the channels' errors do not stop it.
  pub tick_with_uplink-IsCollected :
      (device : String) (points : List PointMapping) (p p' : P) (re : RuleEngine) (w : W)
      (values : List PointValue)
      → read device p ≡ (ok values, p')
      → let r = tick_with_uplink g fl read lib marshal now uplinks device points p re w in
        (out : Collected) × (r.0 ≡ (if any has_no_client uplinks then panic else ok (some out)))
        × (r.1 ≡ p')
        × IsCollected device points values re out r.2
        × (r.3 ≡ (sent_report device out w).1)
  unfolding tick_with_uplink tick encode_data_report
  tick_with_uplink-IsCollected device points p p' re w values e =
      let raw : Dict Value = raw_values values [] in
      let (out, re') = collect g fl device points values re in
      rw e (
        out,
        sent_or_panic device out w,
        refl,
        (
          (λ name. map_points-IsEntry g fl values name points []),
          map_points-ArePointAlarms g fl values points [],
          (apply_rules-AreAlarms g fl device out.mapped re).0,
        ),
        refl,
      )
