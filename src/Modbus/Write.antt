-- ===== src/Modbus/Write.antt =====
-- The writes of protocols/modbus/modbus_tcp.go, and Read.
pub mod Effects
use sensor_edge.Prelude.Int.{to_unsigned}
use sensor_edge.Modbus.Bits.{pack_bits, pack_registers, unpack_registers}
use sensor_edge.Prelude.Decimal.{decimal_text}
use sensor_edge.Modbus.Address.{parse_address}
use sensor_edge.Go.{msg, err, ok, panic, Error}
use sensor_edge.Value.{int, uint16, bool, PointValue, Value}
use sensor_edge.Prelude.{
  [], ◌^◌, false, ◌+◌, ◌/◌, none, ◌%◌, some, length, ◌∷◌, true, if◌then◌else◌, String, ℕ, List,
  Option, Bool,
}
use sensor_edge.Modbus.Library.{holding_registers, Handler, Library}
use Prim.Native.String
use sensor_edge.Go.Exec.{pure, raise, crash, lift, gets, continue, ◌>>=◌, ◌>>◌}
use sensor_edge.Modbus.Session.{Session, M, client_read}

module _ {W : Type 0} (lib : Library W) where
  abbrev on_handler : Option Handler → (Handler → W → Option Error × W) → M lib (Option Error)
  on_handler none f s = (panic, s)
  on_handler (some h) f s = let (e, w) = f h s.world in (ok e, record s { world = w })

  -- m.client.WriteX(…): a nil client panics, and the error is the result.
  unfoldable pub client_write : (Handler → W → Option Error × W) → M lib (Option Error)
  client_write f s = if s.m.client then on_handler s.m.handler f s else (panic, s)

  abbrev pub coil_word : Bool → ℕ
  coil_word value = if value then 0xFF00 else 0

  unfoldable pub write_single_coil : ℕ → Bool → M lib (Option Error)
  write_single_coil address value =
      client_write (λ h. lib.write_single_coil h address (coil_word value))

  unfoldable pub write_single_register : ℕ → ℕ → M lib (Option Error)
  write_single_register address value =
      client_write (λ h. lib.write_single_register h address value)

  unfoldable pub write_multiple_coils : ℕ → List Bool → M lib (Option Error)
  write_multiple_coils address values =
      client_write
        (λ h. lib.write_multiple_coils h address (length values % 2 ^ 16) (pack_bits values))

  unfoldable pub write_multiple_registers : ℕ → List ℕ → M lib (Option Error)
  write_multiple_registers address values =
      client_write (λ h.
        lib.write_multiple_registers h address (length values % 2 ^ 16) (pack_registers values))

  abbrev pub write_value : ℕ → Value → M lib (Option Error)
  write_value addr (bool v) = client_write (λ h. lib.write_single_coil h addr (coil_word v))
  write_value addr (uint16 v) = client_write (λ h. lib.write_single_register h addr v)
  write_value addr (int v) =
      client_write (λ h. lib.write_single_register h addr (to_unsigned (2 ^ 16) v))
  write_value addr _ = pure (some (msg "unsupported value type"))

  -- Write: the error is the result.
  unfoldable pub write : String → Value → M lib (Option Error)
  write point value s = elim (parse_address point) [
    | ok addr ↦ write_value addr value s
    | err e ↦ (ok (some e), s)
    | panic ↦ (panic, s)
  ]

  -- The values of Read: words i, i + 1, … of the bytes.
  abbrev pub numbered : ℕ → ℕ → List ℕ → List PointValue
  numbered now i [] = []
  numbered now i (v ∷ vs) =
      record {
        point_id = String.◌++◌ "reg" (decimal_text i);
        value = uint16 v;
        quality = "good";
        timestamp = now;
      }
      ∷ numbered now (i + 1) vs

  -- Read: the first ten holding registers.
  unfoldable pub read : M lib (List PointValue)
  read = do
    r ← client_read lib holding_registers 0 10
    regs ← lift r
    vals ← lift (unpack_registers regs 0 (length regs / 2))
    now ← gets (λ s. lib.unix s.world)
    pure (numbered now 0 vals)
