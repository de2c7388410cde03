-- ===== src/Poll/Plant.antt =====
-- From the memory of a Modbus device to the values that are reported.
pub mod Rounds
use mathlib.Core.Path.{subst}
use sensor_edge.Modbus.Batch.{plain, read_batch}
use sensor_edge.Modbus.Batch.Memory.{Through}
use sensor_edge.Modbus.Batch.Codes.{Memory, ServesMemory, held, read_batch-IsFetched}
use sensor_edge.Modbus.Batch.Outage.{modbus_protocol}
use sensor_edge.Modbus.Session.{Session}
use sensor_edge.Modbus.Library.{Library, Handler, holding_registers, input_registers}
use sensor_edge.Poll.Stored.{
  In, Found, Gives, Converts, Holds, store_values-Found, store_values-Holds, store_values-Stores,
}
use sensor_edge.Poll.Owned.{
  Own, OnlyName, Quiet, declare_points-named, read-Converts, read-Gives, id-Found,
}
use sensor_edge.Poll.Readings.{
  All-In, All-map, Any-map, IsOf, Named, IsRead, IdIs, collect_points-IsOf, collect_points-Named,
  sort_points-Any, sort_points-All, words-IsRead, words-Any,
}
use sensor_edge.Poll.Retry.{read_with_retry-first}
use sensor_edge.Poll.Round.{store_values, Poll, poll_group, declare_points}
use sensor_edge.Go.{ok}
use sensor_edge.Modbus.Points.{collect_points, AddrPoint, sort_points}
use sensor_edge.Prelude.Dict.{Dict, lookup}
use sensor_edge.Value.{uint16, PointValue, Value}
use sensor_edge.Modbus.Address.{parse_address}
use sensor_edge.Poll.Points.{extract_point_addresses, PointMapping, FunctionPointGroup}
use sensor_edge.Prelude.{map, ◌⊎◌, inl, inr, ap, ◌∙◌, refl, sym, String, ◌≡◌, ℕ, List}
use sensor_edge.Edge.{Govaluate, apply_rules}
use sensor_edge.Poll.Convert.{convert, Numerics}
use sensor_edge.Poll.Stored

module _ {W : Type 0} (lib : Library W) (n : Numerics) (g : Govaluate) (mem : Memory) where
  -- The addresses of the group's points parse, find their own points, and name registers or bits
  -- whose conversion does not panic.
  abbrev pub IsServed : FunctionPointGroup → Type 0
  IsServed group =
      ((aps : List AddrPoint) × (collect_points
            (map (plain lib) (extract_point_addresses group.points))
          ≡ ok aps))
      × Stored.All (Own group.points) group.points
      × Stored.All (Quiet n group.points (held mem group.function)) group.points

  -- No other point of the group has the name of p, and if p is one of its points, the group's
  -- function gives it the value x at the address a.
  abbrev pub IsGiven : PointMapping → ℕ → Value → FunctionPointGroup → Type 0
  IsGiven p a x group =
      Stored.All (OnlyName p) group.points
      × (In p group.points → convert n p (held mem group.function a) ≡ ok x)

  poll_group-stores :
      (dev : String) (group : FunctionPointGroup) (vs : List PointValue) (all all' : Dict Value)
      (s : Poll (Session W)) (t : Session W)
      → read_batch lib group.function (extract_point_addresses group.points) s.driver ≡ (ok vs, t)
      → store_values n group.points vs (declare_points group.points all) ≡ ok all'
      → (u : Poll (Session W)) × (poll_group (modbus_protocol lib) n g dev group all s
          ≡ (ok all', u))
        × (u.driver ≡ t)
  unfolding poll_group
  poll_group-stores dev group vs all all' s t e stored =
      let first =
        read_with_retry-first (modbus_protocol lib) dev group.function
          (extract_point_addresses group.points) 2 s.driver vs (ap (λ r. r.0) e)
        ∙ e in
      (
        record s { driver = t; engine = (apply_rules g n.floats dev all' s.engine).0 },
        rw first (rw stored refl),
        refl,
      )

  -- A group with p stores the conversion of its register; a group without p keeps what is there.
  pub poll_group-Holds :
      (h : Handler) (dev : String) (group : FunctionPointGroup) (all : Dict Value)
      (s : Poll (Session W)) (p : PointMapping) (a : ℕ) (x : Value)
      → ServesMemory lib h mem
      → IsServed group
      → Through h s.driver
      → IsGiven p a x group
      → parse_address p.address ≡ ok a
      → (all' : Dict Value) × (u : Poll (Session W)) × (poll_group
            (modbus_protocol lib)
            n
            g
            dev
            group
            all
            s
          ≡ (ok all', u))
        × Through h u.driver
        × (In p group.points ⊎ Holds n group.points p x all → Holds n group.points p x all')
  poll_group-Holds h dev group all s p a x memory ((aps, parsed), own, quiet) through (only, conv)
        at =
      let points = group.points in
      let declared = declare_points points all in
      let value = held mem group.function in
      let (vs, t, e, words, still) =
        read_batch-IsFetched lib h mem (extract_point_addresses points) aps s.driver group.function
          parsed through memory in
      let read = words-IsRead points value vs (sort_points aps) words (
        sort_points-All (IsOf points) aps
          (collect_points-IsOf lib points points aps (λ q k. k) parsed)) in
      let gives =
        All-map (IsRead points value) (Gives n points p x) vs
          (read-Gives n points value p a x own only at conv) read in
      let (all', stored) = store_values-Stores n points vs declared (
        All-map (IsRead points value) (Converts n points) vs
          (read-Converts n points value own quiet) read) in
      let (u, polled, driver) = poll_group-stores dev group vs all all' s t e stored in
      let with_p : In p points → Holds n points p x all' = λ here.
        store_values-Found n points p x vs declared all' gives
          (Any-map (IdIs p.address) (Found n points p x) vs
            (id-Found n points value p x (All-In (Own points) p points here own))
            (words-Any points value p.address vs (sort_points aps) words (
              sort_points-Any (Named p.address) aps
                (collect_points-Named lib points aps p here parsed))))
          stored in
      (
        all',
        u,
        polled,
        subst (Through h) (sym driver) still,
        λ k. elim k [
          | inl here ↦ with_p here
          | inr there ↦ elim (declare_points-named p points all only) [
            | inl here ↦ with_p here
            | inr kept ↦
                store_values-Holds n points p x vs declared all' gives (kept ∙ there) stored
          ]
        ],
      )
