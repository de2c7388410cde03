-- ===== src/Modbus/Session/Pairing.antt =====
-- m.handler and m.client are set and cleared together.
use sensor_edge.Go.{panic, err, ok, Outcome, Error}
use sensor_edge.Value.{Value}
use sensor_edge.Prelude.Dict.{Dict}
use sensor_edge.Floats.{Floats}
use sensor_edge.Prelude.{none, some, inr, inl, List, ◌||◌, ℕ, Bool-cases, Option, not, ◌≡◌, arith}
use sensor_edge.Modbus.Session.{
  slave_of, port_of, field, ip_of, is_conn_error, or_raise, close, connect_to, again, retry,
  ensure_connected, read_retrying, client_read, set_slave, is_none, Session, force_reconnect, init,
}
use sensor_edge.Modbus.Library.{Handler, Table, Library}
use sensor_edge.Go.Exec.Keeps.{Keeps, Keeps-lift, Keeps-bind}

module _ {W : Type 0} (lib : Library W) where
  abbrev pub IsPaired : Session W → Type 0
  IsPaired s = s.m.client ≡ not (is_none s.m.handler)

  connect_to-IsPaired : (h : Handler) → Keeps IsPaired (connect_to lib h)
  unfolding connect_to
  connect_to-IsPaired h = record { after = λ s p. ground arith }

  pub init-IsPaired : (fl : Floats) (config : Dict Value) → Keeps IsPaired (init lib fl config)
  unfolding init
  init-IsPaired fl config = Keeps-bind _ _ (Keeps-lift (ip_of (field "ip" config))) λ ip.
      Keeps-bind _ _ (Keeps-lift (port_of fl (field "port" config))) λ port.
        Keeps-bind _ _ (Keeps-lift (slave_of fl (field "slave_id" config)))
          λ slave. connect_to-IsPaired (record { ip = ip; port = port; slave_id = slave })

  pub force_reconnect-IsPaired : Keeps IsPaired (force_reconnect lib)
  unfolding force_reconnect
  force_reconnect-IsPaired = record { after = λ s p. ground arith }

  or_raise-IsPaired : (o : Option Error) → Keeps IsPaired (or_raise lib o)
  or_raise-IsPaired none = record { after = λ s p. p }
  or_raise-IsPaired (some e) = record { after = λ s p. p }

  pub client_read-IsPaired :
      (table : Table) (address quantity : ℕ)
      → Keeps IsPaired (client_read lib table address quantity)
  unfolding client_read
  client_read-IsPaired table address quantity = record { after = λ s p. ground arith }

  pub ensure_connected-IsPaired : Keeps IsPaired (ensure_connected lib)
  unfolding ensure_connected
  ensure_connected-IsPaired = record {
    after = λ s p. elim (Bool-cases (is_none s.m.handler || not s.m.client)) [
      | inl e ↦ rw e (
          (Keeps-bind (force_reconnect lib) (or_raise lib) force_reconnect-IsPaired
              or_raise-IsPaired).after
            s p)
      | inr e ↦ rw e p
    ];
  }

  again-IsPaired :
      (table : Table) (address quantity : ℕ) (e : Error) (failed : Option Error)
      → Keeps IsPaired (again lib table address quantity e failed)
  again-IsPaired table address quantity e none = client_read-IsPaired table address quantity
  again-IsPaired table address quantity e (some f) = record { after = λ s p. p }

  pub retry-IsPaired :
      (table : Table) (address quantity : ℕ) (r : Outcome (List ℕ))
      → Keeps IsPaired (retry lib table address quantity r)
  retry-IsPaired table address quantity (ok b) = record { after = λ s p. p }
  retry-IsPaired table address quantity panic = record { after = λ s p. p }
  retry-IsPaired table address quantity (err e) = elim (Bool-cases (is_conn_error e)) [
    | inl c ↦ rw c (
        Keeps-bind (force_reconnect lib) (again lib table address quantity e)
          force_reconnect-IsPaired (again-IsPaired table address quantity e))
    | inr c ↦ rw c (record { after = λ s p. p })
  ]

  pub read_retrying-IsPaired :
      (table : Table) (address quantity : ℕ)
      → Keeps IsPaired (read_retrying lib table address quantity)
  unfolding read_retrying
  read_retrying-IsPaired table address quantity = Keeps-bind _ _ ensure_connected-IsPaired λ _.
      Keeps-bind _ _ (client_read-IsPaired table address quantity) λ first.
        Keeps-bind _ _ (retry-IsPaired table address quantity first) λ last. Keeps-lift last

  pub set_slave-IsPaired : (slave : ℕ) → Keeps IsPaired (set_slave lib slave)
  unfolding set_slave
  set_slave-IsPaired slave = record { after = λ s p. ground arith }

  pub close-IsPaired : Keeps IsPaired (close lib)
  unfolding close
  close-IsPaired = record { after = λ s p. ground arith }
