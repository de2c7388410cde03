-- ===== src/Modbus/Session.antt =====
-- The connection of protocols/modbus/modbus_tcp.go: Init, Reconnect, SetSlave, Close, and the four
-- reads with their one retry. The mutex only serialises ForceReconnect and is not modelled.
pub mod Pairing
pub mod Retry
pub mod Methods
pub mod Safety
use sensor_edge.Prelude.{
  ℕ, ℤ, ◌^◌, String, Bool, true, false, ◌||◌, not, Option, none, some, List, if◌then◌else◌,
}
use sensor_edge.Prelude.Dict.{Dict, lookup}
use sensor_edge.Prelude.Int.{to_unsigned}
use sensor_edge.Prelude.Text.{contains}
use sensor_edge.Go.{Error, Outcome, ok, err, panic, eof, net_error, msg, wrap, text}
use sensor_edge.Go.Exec.{Exec, pure, raise, crash, lift, gets, continue, ◌>>=◌, ◌>>◌}
use sensor_edge.Value.{Value, nil, int, int64, float64, string}
use sensor_edge.Floats.{Floats}
use sensor_edge.Modbus.Library.{
  Table, Handler, Library, coils, discrete_inputs, holding_registers, input_registers,
}
use sensor_edge.Modbus.Bits.{unpack_bits, unpack_registers}

-- `client` says whether m.client is set: it is made of the object that m.handler points to, and its
-- calls go through that object. fail_count is never read or written by the source.
pub record ModbusTcp : Type 0 where
  pub handler : Option Handler
  pub client : Bool
  pub fail_count : ℕ
  pub ip : String
  pub port : ℤ
  pub slave_id : ℕ

-- &ModbusTCP{}
abbrev pub new_modbus_tcp : ModbusTcp
new_modbus_tcp = record {
  handler = none;
  client = false;
  fail_count = 0;
  ip = "";
  port = ℤ.pos 0;
  slave_id = 0;
}

pub record Session (W : Type 0) : Type 0 where
  pub m : ModbusTcp
  pub world : W

contains_any : String → Bool
contains_any s =
    contains s "connection closed"
    || contains s "broken pipe"
    || contains s "connection reset"
    || contains s "use of closed network connection"

unfoldable pub is_conn_error : Error → Bool
unfolding contains_any
is_conn_error eof = true
is_conn_error (net_error temporary s) = not temporary || contains_any s
is_conn_error (msg s) = contains_any s
is_conn_error (wrap s e) = contains_any (text (wrap s e))

abbrev pub is_none : Option Handler → Bool
is_none none = true
is_none (some h) = false

abbrev field : String → Dict Value → Value
field k config = elim (lookup k config) [ none ↦ nil | some v ↦ v ]

abbrev port_of : Floats → Value → Outcome ℤ
port_of fl (float64 v) = ok (fl.to_int v)
port_of fl (int v) = ok v
port_of fl (int64 v) = ok v
port_of fl _ = err (msg "invalid port type")

-- byte(v)
abbrev slave_of : Floats → Value → Outcome ℕ
slave_of fl (float64 v) = ok (to_unsigned (2 ^ 8) (fl.to_int v))
slave_of fl (int v) = ok (to_unsigned (2 ^ 8) v)
slave_of fl (int64 v) = ok (to_unsigned (2 ^ 8) v)
slave_of fl _ = err (msg "invalid slave_id type")

abbrev ip_of : Value → Outcome String
ip_of (string s) = ok s
ip_of _ = err (msg "invalid ip address")

module _ {W : Type 0} (lib : Library W) where
  abbrev pub M : Type 0 → Type 0
  M A = Exec (Session W) A

  -- A call of the library that returns only an error.
  abbrev call : (W → Option Error × W) → M (Option Error)
  call f s = let (e, w) = f s.world in (ok e, record s { world = w })

  abbrev or_raise : Option Error → M (Unit {0})
  or_raise none = pure tt
  or_raise (some e) = raise e

  abbrev pub connected : Handler → Session W → Session W
  connected h s = record s { m = record s.m { handler = some h; client = true } }

  abbrev pub disconnected : Session W → Session W
  disconnected s = record s { m = record s.m { handler = none; client = false } }

  -- The end of Init: connect, and on success keep the handler and the three settings.
  connect_to : Handler → M (Unit {0})
  connect_to h s =
      let (failed, w) = lib.connect h s.world in
      elim failed [
        | some e ↦ (err e, record s { world = w })
        | none ↦ (
          ok tt,
          record s {
            m = record s.m {
              handler = some h;
              client = true;
              ip = h.ip;
              port = h.port;
              slave_id = h.slave_id;
            };
            world = w;
          },
        )
      ]

  unfoldable pub init : Floats → Dict Value → M (Unit {0})
  unfolding connect_to
  init fl config = do
    ip ← lift (ip_of (field "ip" config))
    port ← lift (port_of fl (field "port" config))
    slave ← lift (slave_of fl (field "slave_id" config))
    connect_to (record { ip = ip; port = port; slave_id = slave })

  -- `if m.handler != nil { Close; handler = nil; client = nil }`
  drop_old : Session W → Session W
  drop_old s = elim s.m.handler [
    | none ↦ s
    | some h ↦ disconnected (record s { world = (lib.close h s.world).1 })
  ]

  abbrev pub new_handler : ModbusTcp → Handler
  new_handler m = record { ip = m.ip; port = m.port; slave_id = m.slave_id }

  abbrev dialled : Handler → Option Error × W → Session W → Outcome (Option Error) × Session W
  dialled h (none, w) s = (ok none, connected h (record s { world = w }))
  dialled h (some e, w) s = (ok (some e), disconnected (record s { world = w }))

  -- ForceReconnect, and Reconnect, which only calls it: the error is the result.
  unfoldable pub force_reconnect : M (Option Error)
  unfolding drop_old
  force_reconnect s =
      let t = drop_old s in dialled (new_handler t.m) (lib.connect (new_handler t.m) t.world) t

  abbrev through : Option Handler → (Handler → W → Outcome (List ℕ) × W) → M (Outcome (List ℕ))
  through none f s = (panic, s)
  through (some h) f s = let (r, w) = f h s.world in (ok r, record s { world = w })

  -- m.client.ReadX(address, quantity): a nil client panics, and an error is a result.
  unfoldable pub client_read : Table → ℕ → ℕ → M (Outcome (List ℕ))
  client_read table address quantity s =
      if s.m.client
      then through s.m.handler (λ h. lib.read table h address quantity) s
      else (panic, s)

  -- `if m.handler == nil || m.client == nil { if err := m.ForceReconnect(); err != nil { return } }`
  unfoldable pub ensure_connected : M (Unit {0})
  ensure_connected s =
      if is_none s.m.handler || not s.m.client
      then (do failed ← force_reconnect; or_raise failed) s
      else (ok tt, s)

  -- After a first read: `recErr := m.ForceReconnect(); if recErr == nil { results, err = … }`.
  abbrev again : Table → ℕ → ℕ → Error → Option Error → M (Outcome (List ℕ))
  again table address quantity e none = client_read table address quantity
  again table address quantity e (some failed) = pure (err e)

  abbrev retry : Table → ℕ → ℕ → Outcome (List ℕ) → M (Outcome (List ℕ))
  retry table address quantity (err e) =
      if is_conn_error e
      then (do failed ← force_reconnect; again table address quantity e failed)
      else pure (err e)
  retry table address quantity r = pure r

  unfoldable pub read_retrying : Table → ℕ → ℕ → M (List ℕ)
  read_retrying table address quantity = do
    ensure_connected
    first ← client_read table address quantity
    last ← retry table address quantity first
    lift last

  unfoldable pub read_coils : ℕ → ℕ → M (List Bool)
  read_coils address quantity = do
    results ← read_retrying coils address quantity
    lift (unpack_bits results 0 quantity)

  unfoldable pub read_discrete_inputs : ℕ → ℕ → M (List Bool)
  read_discrete_inputs address quantity = do
    results ← read_retrying discrete_inputs address quantity
    lift (unpack_bits results 0 quantity)

  unfoldable pub read_holding_registers : ℕ → ℕ → M (List ℕ)
  read_holding_registers address quantity = do
    results ← read_retrying holding_registers address quantity
    lift (unpack_registers results 0 quantity)

  unfoldable pub read_input_registers : ℕ → ℕ → M (List ℕ)
  read_input_registers address quantity = do
    results ← read_retrying input_registers address quantity
    lift (unpack_registers results 0 quantity)

  -- SetSlave changes the handler, and so what the client's requests name, but not m.slaveId.
  unfoldable pub set_slave : ℕ → M (Unit {0})
  set_slave slave s = elim s.m.handler [
    | none ↦ (ok tt, s)
    | some h ↦
        (ok tt, record s { m = record s.m { handler = some (record h { slave_id = slave }) } })
  ]

  -- Close leaves handler and client in place.
  unfoldable pub close : M (Option Error)
  close s = elim s.m.handler [ none ↦ (ok none, s) | some h ↦ call (lib.close h) s ]
