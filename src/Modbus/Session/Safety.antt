-- ===== src/Modbus/Session/Safety.antt =====
-- A read through the methods ReadCoils, ReadDiscreteInputs, ReadHoldingRegisters and
-- ReadInputRegisters meets no nil client, whatever calls came before.
use sensor_edge.Modbus.Batch.{read_batch, read_batch_with_format}
use sensor_edge.Modbus.Write.{
  read, write, write_single_coil, write_single_register, write_multiple_coils,
  write_multiple_registers,
}
use sensor_edge.Modbus.Session.Methods.{
  read_batch-IsPaired, read_batch_with_format-IsPaired, read-IsPaired, write-IsPaired,
  write_single_coil-IsPaired, write_single_register-IsPaired, write_multiple_coils-IsPaired,
  write_multiple_registers-IsPaired,
}
use sensor_edge.Value.{PointConfig, Value}
use sensor_edge.Prelude.Dict.{Dict}
use sensor_edge.Go.{panic, Outcome, ok, err, Error}
use sensor_edge.Prelude.{
  inr, arith, inl, not, refl, Option-cases, ◌||◌, Option, none, ◌≢◌, Bool, String, some, Bool-cases,
  [], ℕ, ◌⊎◌, false, ◌∷◌, true, ◌≡◌, List,
}
use sensor_edge.Modbus.Library.{Handler, Table, Library}
use sensor_edge.Floats.{Floats}
use sensor_edge.Modbus.Session.{
  is_conn_error, dialled, Session, new_modbus_tcp, init, force_reconnect, read_retrying, set_slave,
  close, client_read, retry, ensure_connected, is_none,
}
use sensor_edge.Modbus.Session.Pairing.{
  IsPaired, init-IsPaired, force_reconnect-IsPaired, read_retrying-IsPaired, set_slave-IsPaired,
  close-IsPaired,
}

-- A call on the driver.
pub data Request : Type 0 where
  initialise : Floats → Dict Value → Request
  reconnect : Request
  read_table : Table → ℕ → ℕ → Request
  choose_slave : ℕ → Request
  shut : Request
  read_many : String → List String → Request  -- ReadBatch
  read_formatted : List PointConfig → Request  -- ReadBatchWithFormat
  read_first : Request  -- Read
  write_point : String → Value → Request
  write_coil : ℕ → Bool → Request
  write_register : ℕ → ℕ → Request
  write_coils : ℕ → List Bool → Request
  write_registers : ℕ → List ℕ → Request

module _ {W : Type 0} (lib : Library W) where
  pub perform : Request → Session W → Session W
  perform (initialise fl config) s = (init lib fl config s).1
  perform reconnect s = (force_reconnect lib s).1
  perform (read_table table address quantity) s = (read_retrying lib table address quantity s).1
  perform (choose_slave slave) s = (set_slave lib slave s).1
  perform shut s = (close lib s).1
  perform (read_many function points) s = (read_batch lib function points s).1
  perform (read_formatted points) s = (read_batch_with_format lib points s).1
  perform read_first s = (read lib s).1
  perform (write_point point v) s = (write lib point v s).1
  perform (write_coil a v) s = (write_single_coil lib a v s).1
  perform (write_register a v) s = (write_single_register lib a v s).1
  perform (write_coils a vs) s = (write_multiple_coils lib a vs s).1
  perform (write_registers a vs) s = (write_multiple_registers lib a vs s).1

  pub perform_all : List Request → Session W → Session W
  perform_all [] s = s
  perform_all (r ∷ rs) s = perform_all rs (perform r s)

  perform-IsPaired : (r : Request) (s : Session W) → IsPaired lib s → IsPaired lib (perform r s)
  unfolding perform
  perform-IsPaired (initialise fl config) s p = (init-IsPaired lib fl config).after s p
  perform-IsPaired reconnect s p = (force_reconnect-IsPaired lib).after s p
  perform-IsPaired (read_table t a q) s p = (read_retrying-IsPaired lib t a q).after s p
  perform-IsPaired (choose_slave slave) s p = (set_slave-IsPaired lib slave).after s p
  perform-IsPaired shut s p = (close-IsPaired lib).after s p
  perform-IsPaired (read_many f ps) s p = (read_batch-IsPaired lib f ps).after s p
  perform-IsPaired (read_formatted ps) s p = (read_batch_with_format-IsPaired lib ps).after s p
  perform-IsPaired read_first s p = (read-IsPaired lib).after s p
  perform-IsPaired (write_point point v) s p = (write-IsPaired lib point v).after s p
  perform-IsPaired (write_coil a v) s p = (write_single_coil-IsPaired lib a v).after s p
  perform-IsPaired (write_register a v) s p = (write_single_register-IsPaired lib a v).after s p
  perform-IsPaired (write_coils a vs) s p = (write_multiple_coils-IsPaired lib a vs).after s p
  perform-IsPaired (write_registers a vs) s p =
      (write_multiple_registers-IsPaired lib a vs).after s p

  pub perform_all-IsPaired :
      (rs : List Request) (s : Session W) → IsPaired lib s → IsPaired lib (perform_all rs s)
  unfolding perform_all
  perform_all-IsPaired [] s p = p
  perform_all-IsPaired (r ∷ rs) s p = perform_all-IsPaired rs (perform r s) (perform-IsPaired r s p)

  -- The client is set, and a handler is there for its calls.
  abbrev IsConnected : Session W → Type 0
  IsConnected s = (s.m.client ≡ true) × (is_none s.m.handler ≡ false)

  dialled_lem :
      (h : Handler) (o : Option Error × W) (s : Session W)
      → ((e : Error) × ((dialled lib h o s).0 ≡ ok (some e)))
        ⊎ (((dialled lib h o s).0 ≡ ok none) × IsConnected (dialled lib h o s).1)
  dialled_lem h (none, w) s = inr (refl, (refl, refl))
  dialled_lem h (some e, w) s = inl (e, refl)

  force_reconnect_lem :
      (s : Session W)
      → ((e : Error) × ((force_reconnect lib s).0 ≡ ok (some e)))
        ⊎ (((force_reconnect lib s).0 ≡ ok none) × IsConnected (force_reconnect lib s).1)
  unfolding force_reconnect
  force_reconnect_lem s = dialled_lem _ (lib.connect _ _) _

  ensure_connected_lem :
      (s : Session W)
      → IsPaired lib s
      → ((e : Error) × ((ensure_connected lib s).0 ≡ err e))
        ⊎ (((ensure_connected lib s).0 ≡ ok tt) × IsConnected (ensure_connected lib s).1)
  unfolding ensure_connected
  ensure_connected_lem s p = elim (Bool-cases (is_none s.m.handler || not s.m.client)) [
    | inr e ↦ rw e (inr (refl, (ground arith, ground arith)))
    | inl e ↦ rw e (elim (force_reconnect_lem s) [
      | inl (x, f) ↦ rw f (inl (x, refl))
      | inr (f, c) ↦ rw f (inr (refl, c))
    ])
  ]

  -- A library call returns a result or an error.
  abbrev pub Returns : Type 0
  Returns = (t : Table) (h : Handler) (a q : ℕ) (w : W) → (lib.read t h a q w).0 ≢ panic

  client_read_lem :
      (t : Table) (a q : ℕ) (s : Session W)
      → Returns
      → IsConnected s
      → (r : Outcome (List ℕ)) × ((client_read lib t a q s).0 ≡ ok r) × (r ≢ panic)
  unfolding client_read
  client_read_lem t a q s returns c = elim (Option-cases s.m.handler) [
    | inl e ↦ ground arith
    | inr (h, e) ↦ ((lib.read t h a q s.world).0, rw (c.0, e) refl, returns t h a q s.world)
  ]

  retry-ne-panic :
      (t : Table) (a q : ℕ) (r : Outcome (List ℕ)) (s : Session W)
      → Returns
      → r ≢ panic
      → (last : Outcome (List ℕ)) × ((retry lib t a q r s).0 ≡ ok last) × (last ≢ panic)
  retry-ne-panic t a q (ok b) s returns n = (ok b, refl, n)
  retry-ne-panic t a q panic s returns n = absurd (n refl)
  retry-ne-panic t a q (err e) s returns n = elim (Bool-cases (is_conn_error e)) [
    | inr c ↦ rw c (err e, refl, n)
    | inl c ↦ rw c (elim (force_reconnect_lem s) [
      | inl (x, f) ↦ rw f (err e, refl, n)
      | inr (f, k) ↦ rw f (client_read_lem t a q (force_reconnect lib s).1 returns k)
    ])
  ]

  read_retrying-ne-panic :
      (t : Table) (a q : ℕ) (s : Session W)
      → Returns
      → IsPaired lib s
      → (read_retrying lib t a q s).0 ≢ panic
  unfolding read_retrying
  read_retrying-ne-panic t a q s returns p = elim (ensure_connected_lem s p) [
    | inl (e, f) ↦ rw f (λ x. cc)
    | inr (f, c) ↦
        let (r, g, n) = client_read_lem t a q (ensure_connected lib s).1 returns c in
        let (last, k, m) =
          retry-ne-panic t a q r (client_read lib t a q (ensure_connected lib s).1).1 returns n in
        rw (f, g, k) m
  ]

  -- After any calls on a new driver, of Init, Reconnect, the four table reads, ReadBatch,
  -- ReadBatchWithFormat, Read, the five writes, SetSlave and Close, those that panicked included, a
  -- read of a table through the driver's own method does not dereference a nil client: it returns
  -- bytes or an error, provided the library's reads return.
  pub reads_never_crash :
      (rs : List Request) (w : W) (t : Table) (a q : ℕ)
      → Returns
      → (read_retrying lib t a q (perform_all rs (record { m = new_modbus_tcp; world = w }))).0
        ≢ panic
  reads_never_crash rs w t a q returns =
      read_retrying-ne-panic t a q _ returns (perform_all-IsPaired rs _ refl)
