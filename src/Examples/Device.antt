-- ===== src/Examples/Device.antt =====
-- A device for the tests: its registers and coils answer every request.
use sensor_edge.Prelude.{
  refl, ◌∷◌, ◌^◌, ◌∙◌, zero, true, ◌<◌, ◌%◌, pos, ◌+◌, suc, ◌≡◌, some, ◌*◌, none, [], if◌then◌else◌,
  ℕ, List, Bool, arith, ap, ◌==◌, false, length, get_or,
}
use sensor_edge.Go.{net_error, ok, eof, err}
use sensor_edge.Modbus.Bits.{register_at, bit_at, pack_bits, pack_registers}
use sensor_edge.Modbus.Bits.RoundTrip.{bit_at-pack_bits}
use sensor_edge.Modbus.Bits.Registers.{register_at-pack_registers, AllWords}
use sensor_edge.Modbus.Library.{
  Library, Table, Handler, coils, discrete_inputs, holding_registers, input_registers,
}
use sensor_edge.Modbus.Batch.Memory.{registers, ServesRegisters, ServesBits}
use sensor_edge.Modbus.Session.{Session, ModbusTcp}

abbrev cell_of : ℕ → ℕ → ℕ
cell_of k i = (3 * i + k) % 2 ^ 16

-- The holding registers and the input registers.
abbrev pub cell : ℕ → ℕ
cell = cell_of 0

abbrev pub cell_in : ℕ → ℕ
cell_in = cell_of 1

abbrev flag_of : ℕ → ℕ → Bool
flag_of k i = i % 3 == k

-- The coils and the discrete inputs.
abbrev pub flag : ℕ → Bool
flag = flag_of 1

abbrev pub flag_in : ℕ → Bool
flag_in = flag_of 2

abbrev flags : ℕ → ℕ → ℕ → List Bool
flags k a zero = []
flags k a (suc n) = flag_of k a ∷ flags k (a + 1) n

length-registers : (k a n : ℕ) → length (registers (cell_of k) a n) ≡ n
length-registers k a zero = refl
length-registers k a (suc n) = ap suc (length-registers k (a + 1) n)

get_or-registers :
    (k a n i : ℕ) → i < n → get_or (registers (cell_of k) a n) i 0 ≡ cell_of k (a + i)
get_or-registers k a zero i h = elim h [ ]
get_or-registers k a (suc n) zero h = ap (cell_of k) {x = a} {y = a + 0} (omega arith)
get_or-registers k a (suc n) (suc i) h =
    get_or-registers k (a + 1) n i (omega arith)
    ∙ ap (cell_of k) {x = a + 1 + i} {y = a + suc i} (omega arith)

registers-AllWords : (k a n : ℕ) → AllWords (registers (cell_of k) a n)
registers-AllWords k a zero = tt
registers-AllWords k a (suc n) = (omega arith, registers-AllWords k (a + 1) n)

length-pack_registers : (vs : List ℕ) → length (pack_registers vs) ≡ 2 * length vs
unfolding pack_registers
length-pack_registers [] = refl
length-pack_registers (v ∷ vs) = omega (arith, length-pack_registers vs)

length-flags : (k a n : ℕ) → length (flags k a n) ≡ n
length-flags k a zero = refl
length-flags k a (suc n) = ap suc (length-flags k (a + 1) n)

get_or-flags : (k a n i : ℕ) → i < n → get_or (flags k a n) i false ≡ flag_of k (a + i)
get_or-flags k a zero i h = elim h [ ]
get_or-flags k a (suc n) zero h = ap (flag_of k) {x = a} {y = a + 0} (omega arith)
get_or-flags k a (suc n) (suc i) h =
    get_or-flags k (a + 1) n i (omega arith)
    ∙ ap (flag_of k) {x = a + 1 + i} {y = a + suc i} (omega arith)

abbrev answer : Table → ℕ → ℕ → List ℕ
answer coils a q = pack_bits (flags 1 a q)
answer discrete_inputs a q = pack_bits (flags 2 a q)
answer holding_registers a q = pack_registers (registers cell a q)
answer input_registers a q = pack_registers (registers cell_in a q)

-- Every request is answered; the world counts the requests.
abbrev pub memory : Library ℕ
memory = record {
  connect = λ h w. (none, w);
  close = λ h w. (none, w);
  read = λ t h a q w. (ok (answer t a q), w + 1);
  write_single_coil = λ h a v w. (none, w);
  write_single_register = λ h a v w. (none, w);
  write_multiple_coils = λ h a q b w. (none, w);
  write_multiple_registers = λ h a q b w. (none, w);
  unix = λ w. w;
}

abbrev pub plant : Handler
plant = record { ip = "10.0.0.7"; port = pos 502; slave_id = 1 }

abbrev pub device : ModbusTcp
device = record {
  handler = some plant;
  client = true;
  fail_count = 0;
  ip = "10.0.0.7";
  port = pos 502;
  slave_id = 1;
}

abbrev pub online : Session ℕ
online = record { m = device; world = 0 }

registers_served :
    (k a q i : ℕ)
    → i < q
    → register_at (pack_registers (registers (cell_of k) a q)) i ≡ ok (cell_of k (a + i))
registers_served k a q i h =
    register_at-pack_registers (registers (cell_of k) a q) i (registers-AllWords k a q)
      (omega (arith, length-registers k a q))
    ∙ ap ok (get_or-registers k a q i h)

bits_served : (k a q i : ℕ) → i < q → bit_at (pack_bits (flags k a q)) i ≡ ok (flag_of k (a + i))
bits_served k a q i h =
    bit_at-pack_bits (flags k a q) i (omega (arith, length-flags k a q))
    ∙ ap ok (get_or-flags k a q i h)

bytes_served : (k a q : ℕ) → length (pack_registers (registers (cell_of k) a q)) ≡ 2 * q
bytes_served k a q =
    length-pack_registers (registers (cell_of k) a q) ∙ ap (λ n. 2 * n) (length-registers k a q)

pub memory-holding_registers : ServesRegisters memory holding_registers plant cell
memory-holding_registers a q w h k =
    (pack_registers (registers cell a q), w + 1, refl, bytes_served 0 a q, registers_served 0 a q)

pub memory-input_registers : ServesRegisters memory input_registers plant cell_in
memory-input_registers a q w h k = (
  pack_registers (registers cell_in a q),
  w + 1,
  refl,
  bytes_served 1 a q,
  registers_served 1 a q,
)

pub memory-coils : ServesBits memory coils plant flag
memory-coils a q w h k = (pack_bits (flags 1 a q), w + 1, refl, bits_served 1 a q)

pub memory-discrete_inputs : ServesBits memory discrete_inputs plant flag_in
memory-discrete_inputs a q w h k = (pack_bits (flags 2 a q), w + 1, refl, bits_served 2 a q)

-- A device that keeps the bytes of the last write and sends them back.
abbrev pub echo : Library (List ℕ)
echo = record {
  connect = λ h w. (none, w);
  close = λ h w. (none, w);
  read = λ t h a q w. (ok w, w);
  write_single_coil = λ h a v w. (none, w);
  write_single_register = λ h a v w. (none, w);
  write_multiple_coils = λ h a q b w. (none, b);
  write_multiple_registers = λ h a q b w. (none, b);
  unix = λ w. 0;
}

-- A network that is down: no dial succeeds, and a connection that is open is broken.
abbrev pub down : Library ℕ
down = record {
  connect = λ h w. (some (net_error false "no route to host"), w);
  close = λ h w. (none, w);
  read = λ t h a q w. (err eof, w + 1);
  write_single_coil = λ h a v w. (some eof, w);
  write_single_register = λ h a v w. (some eof, w);
  write_multiple_coils = λ h a q b w. (some eof, w);
  write_multiple_registers = λ h a q b w. (some eof, w);
  unix = λ w. w;
}

-- A device that drops the connection at the first request.
abbrev pub restarting : Library ℕ
restarting = record memory {
  read = λ t h a q w. if w == 0 then (err eof, 1) else (ok (answer t a q), w);
}
