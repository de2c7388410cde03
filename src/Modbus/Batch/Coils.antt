-- ===== src/Modbus/Batch/Coils.antt =====
-- A batch of coils, or of discrete inputs, returns for each point its own bit.
use sensor_edge.Modbus.Batch.Runs.{
  extend_bits_split, Within, one_bit, BitBounds, extend_bits-BitBounds,
}
use sensor_edge.Modbus.Address.{parse_address-lt, parse_address}
use mathlib.Core.Path.{subst}
use sensor_edge.Modbus.Batch.Sort.{sort_points-Fits, length-sort_points, All, Fits}
use sensor_edge.Modbus.Batch.Groups.{read_groups_answered, Answered}
use sensor_edge.Modbus.Session.{Session}
use sensor_edge.Modbus.Bits.{bit_at}
use sensor_edge.Modbus.Batch.Memory.{Through, untimed, ServesBits}
use sensor_edge.Value.{bool, Value, PointConfig, PointValue}
use sensor_edge.Modbus.Library.{discrete_inputs, coils, Handler, Table, Library}
use sensor_edge.Modbus.Batch.{batch, read_points, read_discrete_inputs_batch, read_coils_batch}
use sensor_edge.Prelude.{
  length, refl, [], ◌∙◌, ◌-◌, ap, arith, ◌^◌, ◌∷◌, ◌+◌, ◌≡◌, map, ◌<◌, String, ◌≤◌, Bool, List, ℕ,
}
use sensor_edge.Modbus.Points.{
  bit_scheme, sort_points, collect_points, u16, point_value, Group, extend_bits, AddrPoint,
  values_of, bit_value,
}
use sensor_edge.Go.{failing-eq-ok, ok-injective, failing, >>=-eq-ok, ok}

abbrev timed : (ℕ → Bool) → ℕ → AddrPoint → PointValue
timed mem now p = point_value p.name (bool (mem p.addr)) "good" now

-- The point's own bit.
abbrev pub expected : (ℕ → Bool) → AddrPoint → String × Value × String
expected mem p = (p.name, bool (mem p.addr), "good")

bit_value_lem :
    (mem : ℕ → Bool) (base q now : ℕ) (bs : List ℕ) (p : AddrPoint)
    → ((i : ℕ) → i < q → bit_at bs i ≡ ok (mem (base + i)))
    → base ≤ p.addr
    → p.addr < base + q
    → p.addr < 2 ^ 16
    → bit_value bs base now p ≡ ok (timed mem now p)
unfolding bit_value
bit_value_lem mem base q now bs p each lo hi fits =
    let offset : u16 p.addr 0 base ≡ p.addr - base = omega arith in
    rw (
      offset,
      each (p.addr - base) (omega arith)
          ∙ ap (λ a. ok (mem a)) {x = base + (p.addr - base)} {y = p.addr} (omega arith),
    )

values_of-timed :
    (mem : ℕ → Bool) (base q now max : ℕ) (bs : List ℕ) (ps : List AddrPoint)
    → ((i : ℕ) → i < q → bit_at bs i ≡ ok (mem (base + i)))
    → max + 1 ≡ base + q
    → max < 2 ^ 16
    → All (Within base max) ps
    → values_of bit_value bs base now ps ≡ ok (map (timed mem now) ps)
unfolding values_of
values_of-timed mem base q now max bs [] each e small a = refl
values_of-timed mem base q now max bs (p ∷ ps) each e small a = rw (
  bit_value_lem mem base q now bs p each a.0.0 (omega arith) (omega arith),
  values_of-timed mem base q now max bs ps each e small a.1,
)

untimed-timed :
    (mem : ℕ → Bool) (now : ℕ) (ps : List AddrPoint)
    → map untimed (map (timed mem now) ps) ≡ map (expected mem) ps
untimed-timed mem now [] = refl
untimed-timed mem now (p ∷ ps) = ap (λ l. expected mem p ∷ l) (untimed-timed mem now ps)

module _ {W : Type 0} (lib : Library W) (table : Table) (failure : String) (h : Handler)
    (mem : ℕ → Bool) (serves : ServesBits lib table h mem) where
  answered_group :
      (p : AddrPoint) (g : Group) (q : ℕ)
      → g.max_addr + 1 ≡ p.addr + q
      → 1 ≤ q
      → q ≤ 2000
      → BitBounds p.addr p.addr g
      → u16 g.max_addr 1 p.addr ≡ q
      → Answered lib (bit_scheme table 2000 failure) h (expected mem) p g
  answered_group p g q e lo hi b quantity w =
      let (bs, w', r, each) = serves p.addr q w lo hi in
      let all : All (Within p.addr g.max_addr) (p ∷ g.members) =
        ((omega arith, b.grows), b.covers) in
      (
        bs,
        w',
        ap (λ n. lib.read table h p.addr n w) quantity ∙ r,
        λ now. (
          map (timed mem now) (p ∷ g.members),
          values_of-timed mem p.addr q now g.max_addr bs (p ∷ g.members) each e b.fits all,
          untimed-timed mem now (p ∷ g.members),
        ),
      )

  answered_bounds :
      (p : AddrPoint) (g : Group)
      → BitBounds p.addr p.addr g
      → Answered lib (bit_scheme table 2000 failure) h (expected mem) p g
  answered_bounds p g b =
      answered_group p g (g.max_addr + 1 - p.addr) (omega (arith, b.grows)) (omega (arith, b.grows))
        (omega (arith, b.below)) b (omega (arith, b.grows, b.fits))

  answered :
      (p : AddrPoint) (ps : List AddrPoint)
      → Fits one_bit (p ∷ ps)
      → Answered lib
          (bit_scheme table 2000 failure)
          h
          (expected mem)
          p
          (extend_bits 2000 p.addr p.addr ps)
  answered p ps f =
      answered_bounds p (extend_bits 2000 p.addr p.addr ps)
        (extend_bits-BitBounds p.addr p.addr ps (omega arith) (omega arith) (omega arith) f.1 f.2)

  read_points_lem :
      (points : List PointConfig) (aps : List AddrPoint) (s : Session W)
      → collect_points points ≡ ok aps
      → All (λ p. p.addr + 1 ≤ 2 ^ 16) aps
      → Through h s
      → (vs : List PointValue) × (t : Session W) × (read_points lib
            (bit_scheme table 2000 failure)
            points
            s
          ≡ (ok vs, t))
        × (map untimed vs ≡ map (expected mem) (sort_points aps))
        × Through h t
  unfolding read_points
  read_points_lem points aps s e a c =
      let (vs, t, r, m, c') =
        read_groups_answered lib (bit_scheme table 2000 failure) h (expected mem) one_bit
          (extend_bits_split 2000) answered (length aps) (sort_points aps) s
          (omega (arith, length-sort_points aps)) (sort_points-Fits one_bit aps a) c in
      (vs, t, rw (e, r) refl, m, c')

  batch_lem :
      (points : List PointConfig) (aps : List AddrPoint) (s : Session W)
      → collect_points points ≡ ok aps
      → All (λ p. p.addr + 1 ≤ 2 ^ 16) aps
      → Through h s
      → (vs : List PointValue) × (t : Session W) × (batch lib
            (bit_scheme table 2000 failure)
            points
            s
          ≡ (ok vs, t))
        × (map untimed vs ≡ map (expected mem) (sort_points aps))
        × Through h t
  unfolding collect_points sort_points
  batch_lem [] [] s e a c = ([], s, refl, refl, c)
  batch_lem [] (p ∷ ps) s e a c = cc
  batch_lem (p ∷ ps) aps s e a c = read_points_lem (p ∷ ps) aps s e a c

collect_points-All :
    (points : List PointConfig) (aps : List AddrPoint)
    → collect_points points ≡ ok aps
    → All (λ p. p.addr + 1 ≤ 2 ^ 16) aps
unfolding collect_points
collect_points-All [] [] e = tt
collect_points-All [] (p ∷ aps) e = cc
collect_points-All (pt ∷ pts) aps e =
    let (a, pa, e') = >>=-eq-ok (failing _ (parse_address pt.address)) _ e in
    let (rest, pr, e'') = >>=-eq-ok (collect_points pts) _ e' in
    subst (All (λ p. p.addr + 1 ≤ 2 ^ 16)) (ok-injective _ aps e'') (
      omega (arith, parse_address-lt pt.address a (failing-eq-ok _ (parse_address pt.address) pa)),
      collect_points-All pts rest pr,
    )

-- On a connected driver whose library answers from the coils `flags` and from the discrete inputs
-- `flags_in`, a batch of points whose addresses parse succeeds, for function 01 out of the coils and
-- for function 02 out of the discrete inputs: in the order of the addresses it returns each point once,
-- with quality good and the bit at its own address. The driver stays connected.
pub bit_batches-expected :
    {W : Type 0} (lib : Library W) (h : Handler) (flags flags_in : ℕ → Bool)
    (points : List PointConfig) (aps : List AddrPoint) (s : Session W)
    → collect_points points ≡ ok aps
    → Through h s
    → ServesBits lib coils h flags
    → ServesBits lib discrete_inputs h flags_in
    → ((vs : List PointValue) × (t : Session W) × (read_coils_batch lib points s ≡ (ok vs, t))
        × (map untimed vs ≡ map (expected flags) (sort_points aps))
        × Through h t)
      × ((vs : List PointValue) × (t : Session W) × (read_discrete_inputs_batch lib points s
            ≡ (ok vs, t))
          × (map untimed vs ≡ map (expected flags_in) (sort_points aps))
          × Through h t)
unfolding read_coils_batch read_discrete_inputs_batch
bit_batches-expected lib h flags flags_in points aps s e c one two = (
  batch_lem lib coils _ h flags one points aps s e (collect_points-All points aps e) c,
  batch_lem lib discrete_inputs _ h flags_in two points aps s e (collect_points-All points aps e) c,
)
