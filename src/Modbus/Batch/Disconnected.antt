-- ===== src/Modbus/Batch/Disconnected.antt =====
-- The batch reads call m.client directly, not the driver's own methods that reconnect.
use sensor_edge.Modbus.Session.Retry.{force_reconnect_failed}
use sensor_edge.Modbus.Address.{parse_address}
use sensor_edge.Value.{PointConfig}
use sensor_edge.Prelude.{refl, inr, [], inl, leb, false, Bool-cases, ◌∷◌, some, List, ◌≡◌}
use sensor_edge.Go.{failing, panic, >>=-eq-ok, ok, Error}
use sensor_edge.Modbus.Points.{Group, sort_points, Scheme, AddrPoint, place, collect_points}
use sensor_edge.Modbus.Batch.{
  batch, read_discrete_inputs_batch, read_coils_batch, read_input_registers_batch, read_groups,
  read_group, read_batch_with_format, read_points,
}
use sensor_edge.Modbus.Library.{Library}
use sensor_edge.Modbus.Session.{client_read, Session, force_reconnect}

module _ {W : Type 0} (lib : Library W) where
  read_group_nil :
      (k : Scheme) (p : AddrPoint) (g : Group) (s : Session W)
      → s.m.client ≡ false
      → read_group lib k p g s ≡ (panic, s)
  unfolding read_group client_read
  read_group_nil k p g s c = rw c

  place-cons :
      (p : AddrPoint) (ps : List AddrPoint)
      → (q : AddrPoint) × (qs : List AddrPoint) × (place p ps ≡ q ∷ qs)
  unfolding place
  place-cons p [] = (p, [], refl)
  place-cons p (q ∷ qs) = elim (Bool-cases (leb p.addr q.addr)) [
    | inl e ↦ (p, q ∷ qs, rw e)
    | inr e ↦ (q, place p qs, rw e)
  ]

  collect_points-cons :
      (p : PointConfig) (ps : List PointConfig) (aps : List AddrPoint)
      → collect_points (p ∷ ps) ≡ ok aps
      → (a : AddrPoint) × (rest : List AddrPoint) × (aps ≡ a ∷ rest)
  unfolding collect_points
  collect_points-cons p ps [] e =
      let (a, pa, e') = >>=-eq-ok (failing _ (parse_address p.address)) _ e in
      let (rest, pr, e'') = >>=-eq-ok (collect_points ps) _ e' in absurd (cc e'')
  collect_points-cons p ps (a ∷ rest) e = (a, rest, refl)

  batch_nil :
      (k : Scheme) (p : PointConfig) (ps : List PointConfig) (aps : List AddrPoint) (s : Session W)
      → collect_points (p ∷ ps) ≡ ok aps
      → s.m.client ≡ false
      → batch lib k (p ∷ ps) s ≡ (panic, s)
  unfolding read_points read_groups sort_points
  batch_nil k p ps aps s e c =
      let (a, rest, shape) = collect_points-cons p ps aps e in
      let (q, qs, sorted) = place-cons a (sort_points rest) in
      rw (e, shape, sorted, read_group_nil k q (k.extend q.addr (k.first_max q) qs) s c)

  -- After a reconnect that failed, a batch of one point or more whose addresses parse panics on the
  -- nil client, for each of the four functions: none of them tries to reconnect.
  pub batch_after_failed_reconnect :
      (p : PointConfig) (ps : List PointConfig) (aps : List AddrPoint) (e : Error) (s : Session W)
      → collect_points (p ∷ ps) ≡ ok aps
      → (force_reconnect lib s).0 ≡ ok (some e)
      → let t = (force_reconnect lib s).1 in
        (read_batch_with_format lib (p ∷ ps) t ≡ (panic, t))
        × (read_input_registers_batch lib (p ∷ ps) t ≡ (panic, t))
        × (read_coils_batch lib (p ∷ ps) t ≡ (panic, t))
        × (read_discrete_inputs_batch lib (p ∷ ps) t ≡ (panic, t))
  unfolding read_batch_with_format read_input_registers_batch read_coils_batch
      read_discrete_inputs_batch
  batch_after_failed_reconnect p ps aps e s parsed failed =
      let c = force_reconnect_failed lib s e failed in
      (
        batch_nil _ p ps aps _ parsed c,
        batch_nil _ p ps aps _ parsed c,
        batch_nil _ p ps aps _ parsed c,
        batch_nil _ p ps aps _ parsed c,
      )
