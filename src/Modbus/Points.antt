-- ===== src/Modbus/Points.antt =====
-- The pure parts of the batch reads of protocols/modbus/modbus_tcp.go: the points with their
-- addresses, their order, the groups of neighbours, and the values out of the bytes of a group.
use sensor_edge.Modbus.Address.{parse_address}
use sensor_edge.Value.{words, nil, uint16, bool, PointValue, Value, PointConfig}
use sensor_edge.Prelude.Text.{codes, has_prefix, to_upper}
use sensor_edge.Modbus.Library.{Table}
use sensor_edge.Prelude.{
  get_or, ◌/◌, ◌%◌, ◌&&◌, ◌||◌, length, ◌-◌, ltb, leb, ◌==◌, ◌^◌, if◌then◌else◌, [], ◌+◌, ◌∷◌, List,
  String, ℕ,
}
use Prim.Native.String
use sensor_edge.Go.{failing, ok, Outcome, ◌>>=◌}
use sensor_edge.Modbus.Bits.{bit_at, unpack_registers}

pub record AddrPoint : Type 0 where
  pub addr : ℕ  -- uint16
  pub name : String
  pub format : String

-- addrPoints, in the order of the points; the first address that does not parse ends the call.
unfoldable pub collect_points : List PointConfig → Outcome (List AddrPoint)
collect_points [] = ok []
collect_points (pt ∷ pts) = do
  a ←
      failing (String.◌++◌ "parse address for point " (String.◌++◌ pt.address " failed"))
        (parse_address pt.address)
  rest ← collect_points pts
  ok (record { addr = a; name = pt.point_id; format = pt.format } ∷ rest)

-- sort.Slice by address. The order of points with the same address, which sort.Slice leaves open, is
-- that of the points.
unfoldable pub place : AddrPoint → List AddrPoint → List AddrPoint
place p [] = p ∷ []
place p (q ∷ qs) = if leb p.addr q.addr then p ∷ q ∷ qs else q ∷ place p qs

unfoldable pub sort_points : List AddrPoint → List AddrPoint
sort_points [] = []
sort_points (p ∷ ps) = place p (sort_points ps)

unfoldable pub reg_count : String → ℕ
unfolding to_upper has_prefix
reg_count format =
    if has_prefix (to_upper format) (codes "FLOAT") || has_prefix (to_upper format) (codes "LONG")
    then 2
    else if has_prefix (to_upper format) (codes "DOUBLE")
    then 4
    else 1

-- addrPoints[start..end] without the first, the last address that they cover, and what follows.
pub record Group : Type 0 where
  pub members : List AddrPoint
  pub max_addr : ℕ
  pub rest : List AddrPoint

-- x + y - z in uint16, for z at most 2 ^ 16
abbrev pub u16 : ℕ → ℕ → ℕ → ℕ
u16 x y z = (x + y + 2 ^ 16 - z) % 2 ^ 16

abbrev pub max_regs : ℕ
max_regs = 125

abbrev pub max_coils : ℕ
max_coils = 2000

abbrev pub max_inputs : ℕ
max_inputs = 2000

-- The inner loop over j of the two register functions.
unfoldable pub extend_registers : ℕ → ℕ → List AddrPoint → Group
extend_registers start max_addr [] = record { members = []; max_addr = max_addr; rest = [] }
extend_registers start max_addr (p ∷ ps) =
    let last = u16 p.addr (reg_count p.format) 1 in
    let more = extend_registers start (if ltb max_addr last then last else max_addr) ps in
    if leb p.addr (u16 max_addr 1 0) && ltb (u16 p.addr (reg_count p.format) start) max_regs
    then record more { members = p ∷ more.members }
    else record { members = []; max_addr = max_addr; rest = p ∷ ps }

-- The inner loop over j of the two functions for bits, with their limit.
unfoldable pub extend_bits : ℕ → ℕ → ℕ → List AddrPoint → Group
extend_bits limit start max_addr [] = record { members = []; max_addr = max_addr; rest = [] }
extend_bits limit start max_addr (p ∷ ps) =
    let more = extend_bits limit start p.addr ps in
    if p.addr == u16 max_addr 1 0 && ltb (u16 p.addr 0 start) limit
    then record more { members = p ∷ more.members }
    else record { members = []; max_addr = max_addr; rest = p ∷ ps }

abbrev pub point_value : String → Value → String → ℕ → PointValue
point_value name v quality now = record {
  point_id = name;
  value = v;
  quality = quality;
  timestamp = now;
}

abbrev pub boxed : ℕ → List ℕ → Value
boxed n vals = if n == 1 then uint16 (get_or vals 0 0) else words vals

-- One point of a register group, out of the bytes read from `base` on.
unfoldable pub register_value : List ℕ → ℕ → ℕ → AddrPoint → Outcome PointValue
register_value reg_vals base now p =
    let offset = u16 p.addr 0 base in
    let n = reg_count p.format in
    if ltb (length reg_vals / 2) (offset + n) then ok (point_value p.name nil "bad" now) else (do
      vals ← unpack_registers reg_vals offset n
      ok (point_value p.name (boxed n vals) "good" now))

unfoldable pub bit_value : List ℕ → ℕ → ℕ → AddrPoint → Outcome PointValue
bit_value bytes base now p = do
  b ← bit_at bytes (u16 p.addr 0 base)
  ok (point_value p.name (bool b) "good" now)

pub record Scheme : Type 0 where
  pub table : Table
  pub first_max : AddrPoint → ℕ
  pub extend : ℕ → ℕ → List AddrPoint → Group
  pub value_of : List ℕ → ℕ → ℕ → AddrPoint → Outcome PointValue
  pub failure : String

abbrev pub register_scheme : Table → String → Scheme
register_scheme table failure = record {
  table = table;
  first_max = λ p. u16 p.addr (reg_count p.format) 1;
  extend = extend_registers;
  value_of = register_value;
  failure = failure;
}

abbrev pub bit_scheme : Table → ℕ → String → Scheme
bit_scheme table limit failure = record {
  table = table;
  first_max = λ p. p.addr;
  extend = extend_bits limit;
  value_of = bit_value;
  failure = failure;
}

-- The values of a group, in order; the loop ends at a panic.
unfoldable pub values_of :
    (List ℕ → ℕ → ℕ → AddrPoint → Outcome PointValue)
    → List ℕ
    → ℕ
    → ℕ
    → List AddrPoint
    → Outcome (List PointValue)
values_of f bytes base now [] = ok []
values_of f bytes base now (p ∷ ps) = do
  v ← f bytes base now p
  vs ← values_of f bytes base now ps
  ok (v ∷ vs)
