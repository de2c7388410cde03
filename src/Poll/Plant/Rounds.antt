-- ===== src/Poll/Plant/Rounds.antt =====
-- A round over the Modbus driver, from the device's memory to the report.
use sensor_edge.Modbus.Batch.Memory.{Through}
use sensor_edge.Modbus.Batch.Codes.{Memory, ServesMemory}
use sensor_edge.Modbus.Batch.Outage.{modbus_protocol}
use sensor_edge.Modbus.Session.{Session}
use sensor_edge.Modbus.Library.{Library, Handler}
use sensor_edge.Modbus.Address.{parse_address}
use sensor_edge.Poll.Stored.{In, Any, Holds}
use sensor_edge.Poll.Round.{
  Poll, DataReport, poll_groups, poll_round, next_groups, choose_slave, report_of,
}
use sensor_edge.Poll.Points.{PointMapping, FunctionPointGroup, DevicePointSetV2}
use sensor_edge.Poll.Convert.{Numerics}
use sensor_edge.Poll.Plant.{IsServed, IsGiven, poll_group-Holds}
use sensor_edge.Edge.{Govaluate}
use sensor_edge.Go.{ok, Outcome}
use sensor_edge.Value.{Value}
use sensor_edge.Prelude.Dict.{Dict, lookup}
use sensor_edge.Prelude.{ap, ◌∙◌, refl, some, inl, inr, String, ◌≡◌, ◌⊎◌, ℕ, List, [], ◌∷◌}
use sensor_edge.Poll.Stored

abbrev HasPoint : PointMapping → FunctionPointGroup → Type 0
HasPoint p group = In p group.points

module _ {W : Type 0} (lib : Library W) (n : Numerics) (g : Govaluate) (mem : Memory) where
  poll_groups-Holds :
      (h : Handler) (dev : String) (groups : List FunctionPointGroup) (all : Dict Value)
      (s : Poll (Session W)) (p : PointMapping) (a : ℕ) (x : Value)
      → ServesMemory lib h mem
      → Stored.All (IsServed lib n g mem) groups
      → Through h s.driver
      → Stored.All (IsGiven lib n g mem p a x) groups
      → parse_address p.address ≡ ok a
      → (all' : Dict Value) × (u : Poll (Session W)) × (poll_groups
            (modbus_protocol lib)
            n
            g
            dev
            groups
            all
            s
          ≡ (ok all', u))
        × Through h u.driver
        × (Any (HasPoint p) groups ⊎ (lookup p.name all ≡ some x) → lookup p.name all' ≡ some x)
  unfolding poll_groups
  poll_groups-Holds h dev [] all s p a x memory served through only at =
      (all, s, refl, through, λ k. elim k [ inl none_ ↦ absurd none_ | inr there ↦ there ])
  poll_groups-Holds h dev (group ∷ groups) all s p a x memory (first, more) through
        (only, only_more) at =
      let (mid, t, e, still, holds) =
        poll_group-Holds lib n g mem h dev group all s p a x memory first through only at in
      let (all', u, f, last, holds') =
        poll_groups-Holds h dev groups mid t p a x memory more still only_more at in
      (
        all',
        u,
        ap
              (next_groups (modbus_protocol lib) n g
                (poll_groups (modbus_protocol lib) n g dev groups))
              e
            ∙ f,
        last,
        λ k. elim k [
          | inl (inl here) ↦ holds' (inr (holds (inl here)))
          | inl (inr later) ↦ holds' (inl later)
          | inr there ↦ holds' (inr (holds (inr there)))
        ],
      )

  -- A Modbus driver that is connected once the round has set its slave, and whose device answers from
  -- the four tables of `mem`, is polled for groups of any function codes, in each of which the addresses
  -- parse, find their own points, and name words or bits whose conversion does not panic. Then the round
  -- makes a report and leaves the driver connected; and for a point p of the groups whose name no other
  -- point has, if each group with p converts what the table of its function code (coils for 01, discrete
  -- inputs for 02, input registers for 04, holding registers for any other) has at p's address to x, the
  -- report's value of p is x.
  pub poll_round-memory :
      (h : Handler) (set : DevicePointSetV2) (config : Dict Value) (now : ℕ) (s : Poll (Session W))
      (p : PointMapping) (a : ℕ) (x : Value)
      → ServesMemory lib h mem
      → Stored.All (IsServed lib n g mem) set.functions
      → Through h (choose_slave (modbus_protocol lib) n g (lookup "slave_id" config) s.driver)
      → Stored.All (IsGiven lib n g mem p a x) set.functions
      → Any (HasPoint p) set.functions
      → parse_address p.address ≡ ok a
      → (report : DataReport) × (u : Poll (Session W)) × (poll_round
            (modbus_protocol lib)
            n
            g
            set
            config
            now
            s
          ≡ (ok report, u))
        × (lookup p.name report.values ≡ some x)
        × Through h u.driver
  unfolding poll_round
  poll_round-memory h set config now s p a x memory served through only here at =
      let slave = choose_slave (modbus_protocol lib) n g (lookup "slave_id" config) s.driver in
      let (all, u, e, still, holds) =
        poll_groups-Holds h set.device_id set.functions [] (record s { driver = slave }) p a x
          memory served through only at in
      (
        record {
          device_id = set.device_id;
          timestamp = now;
          values = all;
          alarms = [];
          metrics = [];
        },
        u,
        ap
            (λ (r : Outcome (Dict Value) × Poll (Session W)).
              (report_of (modbus_protocol lib) n g set.device_id now r.0, r.1))
            e,
        holds (inl here),
        still,
      )
