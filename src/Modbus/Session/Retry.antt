-- ===== src/Modbus/Session/Retry.antt =====
-- What a failed read does on a connected driver, and what a reconnect does to the slave id.
use sensor_edge.Go.{Outcome, err, ok, Error}
use sensor_edge.Prelude.{false, sym, arith, refl, ap, ◌∙◌, none, List, Option, true, some, ◌≡◌, ℕ}
use sensor_edge.Modbus.Library.{Table, Handler, Library}
use sensor_edge.Go.Exec.{◌>>=◌, lift}
use sensor_edge.Modbus.Session.{
  again, Session, force_reconnect, read_retrying, set_slave, client_read, ensure_connected,
  connected, disconnected, new_handler, is_conn_error, dialled, drop_old,
}

module _ {W : Type 0} (lib : Library W) where
  -- The second attempt: through the new handler if it connected, otherwise not made.
  abbrev pub second_read :
      Table → ℕ → ℕ → Error → Session W → Option Error × W → Outcome (List ℕ) × Session W
  second_read t a q e s (some failed, w) = (err e, disconnected lib (record s { world = w }))
  second_read t a q e s (none, w) =
      let (r, w') = lib.read t (new_handler lib s.m) a q w in
      (r, connected lib (new_handler lib s.m) (record s { world = w' }))

  force_reconnect_connected :
      (h : Handler) (s : Session W)
      → s.m.handler ≡ some h
      → force_reconnect lib s
        ≡ dialled lib
            (new_handler lib s.m)
            (lib.connect (new_handler lib s.m) (lib.close h s.world).1)
            (disconnected lib (record s { world = (lib.close h s.world).1 }))
  unfolding force_reconnect
  force_reconnect_connected h s e = rw (e, drop_old)

  client_read_connected :
      (t : Table) (a q : ℕ) (h : Handler) (s : Session W)
      → s.m.client ≡ true
      → s.m.handler ≡ some h
      → client_read lib t a q s
        ≡ (ok (lib.read t h a q s.world).0, record s { world = (lib.read t h a q s.world).1 })
  unfolding client_read
  client_read_connected t a q h s c e = rw (c, e)

  ensure_connected_skip :
      (h : Handler) (s : Session W)
      → s.m.client ≡ true
      → s.m.handler ≡ some h
      → ensure_connected lib s ≡ (ok tt, s)
  unfolding ensure_connected
  ensure_connected_skip h s c k = rw (c, k)

  finish :
      (t : Table) (a q : ℕ) (e : Error) (s : Session W) (v : W) (o : Option Error × W)
      → ◌>>=◌
          (◌>>=◌
            (λ (_ : Session W).
              dialled lib (new_handler lib s.m) o (disconnected lib (record s { world = v })))
            (again lib t a q e))
          (λ last. lift last)
          s
        ≡ second_read t a q e s o
  unfolding client_read
  finish t a q e s v (some failed, w) = refl
  finish t a q e s v (none, w) = refl

  -- On a connected driver a read that fails with a connection error e closes the old connection,
  -- dials once and reads once more: if the dial fails the result is e and the driver is left
  -- disconnected; otherwise the result is that of the second read, whatever it is, and the driver is
  -- connected through the new handler.
  pub read_retrying-second_read :
      (t : Table) (a q : ℕ) (h : Handler) (e : Error) (w : W) (s : Session W)
      → s.m.client ≡ true
      → s.m.handler ≡ some h
      → lib.read t h a q s.world ≡ (err e, w)
      → is_conn_error e ≡ true
      → read_retrying lib t a q s
        ≡ second_read t a q e s (lib.connect (new_handler lib s.m) (lib.close h w).1)
  unfolding read_retrying
  read_retrying-second_read t a q h e w s c k fails lost =
      rw
        (
          ensure_connected_skip h s c k,
          client_read_connected t a q h s c k,
          fails,
          lost,
          force_reconnect_connected h (record s { world = w }) k,
        )
        (finish t a q e s (lib.close h w).1 (lib.connect (new_handler lib s.m) (lib.close h w).1))

  dialled-handler :
      (nh h' : Handler) (o : Option Error × W) (t : Session W)
      → (dialled lib nh o t).0 ≡ ok none
      → (dialled lib nh o t).1.m.handler ≡ some h'
      → nh ≡ h'
  dialled-handler nh h' (none, w) t done now = cc
  dialled-handler nh h' (some e, w) t done now = cc

  drop_old-slave_id : (s : Session W) → (drop_old lib s).m.slave_id ≡ s.m.slave_id
  unfolding drop_old
  drop_old-slave_id s = ground arith

  force_reconnect-slave_id :
      (h' : Handler) (s : Session W)
      → (force_reconnect lib s).0 ≡ ok none
      → (force_reconnect lib s).1.m.handler ≡ some h'
      → h'.slave_id ≡ s.m.slave_id
  unfolding force_reconnect
  force_reconnect-slave_id h' s done now =
      ap (λ (x : Handler). x.slave_id)
        (sym (
          dialled-handler (new_handler lib (drop_old lib s).m) h'
            (lib.connect (new_handler lib (drop_old lib s).m) (drop_old lib s).world)
            (drop_old lib s) done now))
      ∙ drop_old-slave_id s

  set_slave-slave_id :
      (slave : ℕ) (s : Session W) → (set_slave lib slave s).1.m.slave_id ≡ s.m.slave_id
  unfolding set_slave
  set_slave-slave_id slave s = ground arith

  -- A slave id chosen by SetSlave does not survive a reconnect: whatever was chosen, the handler that
  -- a successful ForceReconnect makes names the slave id of Init.
  pub force_reconnect-set_slave :
      (slave : ℕ) (h' : Handler) (s : Session W)
      → (force_reconnect lib (set_slave lib slave s).1).0 ≡ ok none
      → (force_reconnect lib (set_slave lib slave s).1).1.m.handler ≡ some h'
      → h'.slave_id ≡ s.m.slave_id
  force_reconnect-set_slave slave h' s done now =
      force_reconnect-slave_id h' (set_slave lib slave s).1 done now ∙ set_slave-slave_id slave s

  dialled_failed :
      (h : Handler) (o : Option Error × W) (t : Session W) (e : Error)
      → (dialled lib h o t).0 ≡ ok (some e)
      → (dialled lib h o t).1.m.client ≡ false
  dialled_failed h (none, w) t e f = cc
  dialled_failed h (some x, w) t e f = refl

  -- After a reconnect that failed the client is nil.
  pub force_reconnect_failed :
      (s : Session W) (e : Error)
      → (force_reconnect lib s).0 ≡ ok (some e)
      → (force_reconnect lib s).1.m.client ≡ false
  unfolding force_reconnect
  force_reconnect_failed s e f = dialled_failed _ _ _ e f
