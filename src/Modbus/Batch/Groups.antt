-- ===== src/Modbus/Batch/Groups.antt =====
-- The outer loop: if each group is answered as expected, so is the whole list of points.
use mathlib.Core.List.{map-append}
use sensor_edge.Modbus.Batch.Memory.{untimed, Through}
use sensor_edge.Go.{ok}
use sensor_edge.Modbus.Session.{client_read, Session}
use sensor_edge.Modbus.Batch.{read_groups, read_group}
use sensor_edge.Value.{PointValue, Value}
use sensor_edge.Modbus.Batch.Sort.{Fits}
use sensor_edge.Prelude.{
  zero, ◌∙◌, sym, length-append, ap, suc, arith, refl, map, ◌≤◌, length, [], ◌∷◌, ◌≡◌, ◌++◌, String,
  List, ℕ,
}
use sensor_edge.Modbus.Points.{values_of, u16, Group, Scheme, AddrPoint}
use sensor_edge.Modbus.Library.{Handler, Library}

Fits-rest : (need : AddrPoint → ℕ) (ms ps : List AddrPoint) → Fits need (ms ++ ps) → Fits need ps
Fits-rest need [] ps f = f
Fits-rest need (m ∷ ms) ps f = Fits-rest need ms ps f.2

-- What one request must bring for the group of p among p and ps.
abbrev pub Answered :
    {W : Type 0}
    → Library W
    → Scheme
    → Handler
    → (AddrPoint → String × Value × String)
    → AddrPoint
    → Group
    → Type 0
Answered {W} lib k h expected p g =
    (w : W)
    → (bs : List ℕ) × (w' : W) × (lib.read k.table h p.addr (u16 g.max_addr 1 p.addr) w
        ≡ (ok bs, w'))
      × ((now : ℕ)
          → (vs : List PointValue) × (values_of k.value_of bs p.addr now (p ∷ g.members) ≡ ok vs)
            × (map untimed vs ≡ map expected (p ∷ g.members)))

module _ {W : Type 0} (lib : Library W) (k : Scheme) (h : Handler)
    (expected : AddrPoint → String × Value × String) (need : AddrPoint → ℕ)
    (split : (start max : ℕ) (ps : List AddrPoint)
      → (k.extend start max ps).members ++ (k.extend start max ps).rest ≡ ps)
    (answered : (p : AddrPoint) (ps : List AddrPoint)
      → Fits need (p ∷ ps)
      → Answered lib k h expected p (k.extend p.addr (k.first_max p) ps)) where
  read_group_answered :
      (p : AddrPoint) (ps : List AddrPoint) (s : Session W)
      → Fits need (p ∷ ps)
      → Through h s
      → (vs : List PointValue) × (t : Session W) × (read_group lib k p
            (k.extend p.addr (k.first_max p) ps)
            s
          ≡ (ok vs, t))
        × (map untimed vs ≡ map expected (p ∷ (k.extend p.addr (k.first_max p) ps).members))
        × Through h t
  unfolding read_group client_read
  read_group_answered p ps s f c =
      let (bs, w', e, vals) = answered p ps f s.world in
      let (vs, v, m) = vals (lib.unix w') in
      (vs, record s { world = w' }, rw (c.0, c.1, e, v) refl, m, c)

  pub read_groups_answered :
      (fuel : ℕ) (ps : List AddrPoint) (s : Session W)
      → length ps ≤ fuel
      → Fits need ps
      → Through h s
      → (vs : List PointValue) × (t : Session W) × (read_groups lib k fuel ps s ≡ (ok vs, t))
        × (map untimed vs ≡ map expected ps)
        × Through h t
  unfolding read_groups
  read_groups_answered zero [] s n f c = ([], s, refl, refl, c)
  read_groups_answered zero (p ∷ ps) s n f c = absurd (omega arith)
  read_groups_answered (suc fuel) [] s n f c = ([], s, refl, refl, c)
  read_groups_answered (suc fuel) (p ∷ ps) s n f c =
      let g : Group = k.extend p.addr (k.first_max p) ps in
      let parts = split p.addr (k.first_max p) ps in
      let (vs, t, e, m, c') = read_group_answered p ps s f c in
      let (more, u, e', m', c'') =
        read_groups_answered fuel g.rest t
          (omega (arith, ap length parts, length-append g.members g.rest))
          (Fits-rest need g.members g.rest (rw parts f.2)) c' in
      (
        vs ++ more,
        u,
        rw (e, e') refl,
        rw (map-append untimed vs more, m, m')
            (ap (λ l. expected p ∷ l)
              (sym (map-append expected g.members g.rest) ∙ ap (map expected) parts)),
        c'',
      )
