-- ===== src/Modbus/Batch/Words.antt =====
-- What ReadBatch gives: it makes points without a format.
use sensor_edge.Modbus.Batch.Memory.{untimed, ServesRegisters, Through}
use sensor_edge.Modbus.Batch.Registers.{need_of}
use sensor_edge.Value.{PointValue, uint16, Value}
use sensor_edge.Modbus.Session.{Session}
use sensor_edge.Modbus.Library.{input_registers, holding_registers, Handler, Library}
use sensor_edge.Prelude.{◌∙◌, arith, refl, ◌≤◌, ◌^◌, [], ◌∷◌, String, ◌+◌, map, ◌<◌, ℕ, ◌≡◌, List}
use mathlib.Core.Path.{subst}
use sensor_edge.Go.{failing-eq-ok, failing, ok-injective, ok, >>=-eq-ok}
use sensor_edge.Modbus.Batch.Sort.{All, All-place}
use sensor_edge.Modbus.Batch.RegisterValues.{expected}
use sensor_edge.Modbus.Batch.RegisterBatch.{register_batches-expected}
use sensor_edge.Modbus.Address.{parse_address-lt, parse_address}
use sensor_edge.Modbus.Batch.{read_batch, plain}
use sensor_edge.Modbus.Points.{reg_count, sort_points, AddrPoint, collect_points}

-- A point that ReadBatch makes.
abbrev Plain : AddrPoint → Type 0
Plain a = (a.format ≡ "") × (a.addr < 2 ^ 16)

collect_points-Plain :
    {W : Type 0} (lib : Library W) (points : List String) (aps : List AddrPoint)
    → collect_points (map (plain lib) points) ≡ ok aps
    → All Plain aps
unfolding collect_points
collect_points-Plain lib [] aps e = subst (All Plain) (ok-injective _ _ e) tt
collect_points-Plain lib (pt ∷ pts) aps e =
    let (a, pa, e') = >>=-eq-ok (failing _ (parse_address pt)) _ e in
    let (rest, pr, e'') = >>=-eq-ok (collect_points (map (plain lib) pts)) _ e' in
    subst (All Plain) (ok-injective _ _ e'') (
      (refl, parse_address-lt pt a (failing-eq-ok _ (parse_address pt) pa)),
      collect_points-Plain lib pts rest pr,
    )

sort_points-Plain : (aps : List AddrPoint) → All Plain aps → All Plain (sort_points aps)
unfolding sort_points
sort_points-Plain [] h = tt
sort_points-Plain (a ∷ aps) h = All-place Plain a (sort_points aps) h.0 (sort_points-Plain aps h.1)

-- One word, whatever the point's type.
abbrev pub word : (ℕ → ℕ) → AddrPoint → String × Value × String
word mem a = (a.name, uint16 (mem a.addr), "good")

expected-word :
    (mem : ℕ → ℕ) (aps : List AddrPoint)
    → All Plain aps
    → map (expected mem) aps ≡ map (word mem) aps
unfolding reg_count
expected-word mem [] h = refl
expected-word mem (a ∷ aps) h = rw (h.0.0, expected-word mem aps h.1)

fits : (aps : List AddrPoint) → All Plain aps → All (λ a. a.addr + need_of a ≤ 2 ^ 16) aps
unfolding reg_count
fits [] h = tt
fits (a ∷ aps) h = (rw h.0.0 (omega arith), fits aps h.1)

-- ReadBatch of a connected driver whose library answers from the holding registers `mem` and the input
-- registers `mem_in`, with points whose addresses parse, gives one word for each point, in the order
-- of the addresses, out of the holding registers for function code 03 and out of the input registers
-- for 04; and the driver stays connected.
pub read_batch-word :
    {W : Type 0} (lib : Library W) (h : Handler) (mem mem_in : ℕ → ℕ) (points : List String)
    (aps : List AddrPoint) (s : Session W)
    → collect_points (map (plain lib) points) ≡ ok aps
    → Through h s
    → ServesRegisters lib holding_registers h mem
    → ServesRegisters lib input_registers h mem_in
    → ((vs : List PointValue) × (t : Session W) × (read_batch lib "03" points s ≡ (ok vs, t))
        × (map untimed vs ≡ map (word mem) (sort_points aps))
        × Through h t)
      × ((vs : List PointValue) × (t : Session W) × (read_batch lib "04" points s ≡ (ok vs, t))
          × (map untimed vs ≡ map (word mem_in) (sort_points aps))
          × Through h t)
unfolding read_batch
read_batch-word lib h mem mem_in points aps s e c holding input =
    let plain_aps = collect_points-Plain lib points aps e in
    let same = λ (m : ℕ → ℕ). expected-word m (sort_points aps) (sort_points-Plain aps plain_aps) in
    let ((vs, t, r, v, k), (ws, u, q, w, l)) =
      register_batches-expected lib h mem mem_in (map (plain lib) points) aps s e
        (fits aps plain_aps) c holding input in
    ((vs, t, r, v ∙ same mem, k), (ws, u, q, w ∙ same mem_in, l))
