-- ===== src/Poll/Running/Slaves.antt =====
-- Two Modbus devices behind one gateway, whose goroutines share a client.
use sensor_edge.Prelude.Int.{to_unsigned}
use sensor_edge.Modbus.Batch.Outage.{modbus_protocol}
use sensor_edge.Value.{float64, Value, int}
use sensor_edge.Poll.Running.Turns.{advance-turn}
use sensor_edge.Prelude.Dict.{lookup}
use sensor_edge.Modbus.Session.{Session, set_slave}
use sensor_edge.Modbus.Library.{Handler, Library}
use sensor_edge.Uplink.Manager.{Uplink, Channels}
use sensor_edge.Edge.{Govaluate}
use sensor_edge.Poll.Convert.{Numerics}
use sensor_edge.Prelude.{
  get_elem?-set_ne, get_elem?-set_self, none, Option, sym, ◌^◌, ℤ, ◌∙◌, ap, [], false, ◌∷◌, some,
  set, ◌≡◌, get_elem?, ◌≢◌, ℕ, List,
}
use sensor_edge.Poll.Round.{choose_slave}
use sensor_edge.Poll.Running.{run, waiting, collecting, Loop, System, turn, advance}
use sensor_edge.Poll.Round.{DataReport}

module _ {V W : Type 0} (modbus : Library V) (n : Numerics) (g : Govaluate) (lib : Channels W)
    (marshal : DataReport → List ℕ) (now : W → ℕ) (uplinks : List Uplink) where
  set_slave-handler :
      (slave : ℕ) (s : Session V) (h : Handler)
      → s.m.handler ≡ some h
      → (set_slave modbus slave s).1.m.handler ≡ some (record h { slave_id = slave })
  unfolding set_slave
  set_slave-handler slave s h e = rw e

  -- The handler after the start of a round differs in its slave at most.
  choose_slave-handler :
      (o : Option Value) (s : Session V) (h : Handler)
      → s.m.handler ≡ some h
      → (slave : ℕ) × ((choose_slave (modbus_protocol modbus) n g o s).m.handler
          ≡ some (record h { slave_id = slave }))
  unfolding choose_slave
  choose_slave-handler none s h e = (h.slave_id, e)
  choose_slave-handler (some (int v)) s h e =
      (to_unsigned (2 ^ 8) v, set_slave-handler (to_unsigned (2 ^ 8) v) s h e)
  choose_slave-handler (some (float64 v)) s h e = (
    to_unsigned (2 ^ 8) (n.floats.to_int v),
    set_slave-handler (to_unsigned (2 ^ 8) (n.floats.to_int v)) s h e,
  )
  choose_slave-handler (some v) s h e = (h.slave_id, e)

  -- If two goroutines whose point sets have the same client start their rounds one after the other, the
  -- first one has all its groups before it, and the client's handler names the slave of the second.
  pub rounds-other_slave :
      (sys : System (Session V) W) (i j : ℕ) (l m : Loop) (s : Session V) (h : Handler) (b : ℤ)
      → i ≢ j
      → sys.crashed ≡ false
      → get_elem? sys.loops i ≡ some l
      → get_elem? sys.loops j ≡ some m
      → l.phase ≡ waiting
      → m.phase ≡ waiting
      → m.started.client ≡ l.started.client
      → get_elem? sys.shared.clients l.started.client ≡ some s
      → s.m.handler ≡ some h
      → lookup "slave_id" m.started.config ≡ some (int b)
      → let sys' =
          run (modbus_protocol modbus) n g lib marshal now uplinks (turn i ∷ turn j ∷ []) sys in
        (s' : Session V) × (get_elem? sys'.shared.clients l.started.client ≡ some s')
        × (s'.m.handler ≡ some (record h { slave_id = to_unsigned (2 ^ 8) b }))
        × (get_elem? sys'.loops i
            ≡ some (record l { phase = collecting l.started.set.functions [] }))
  unfolding run
  rounds-other_slave sys i j l m s h b apart alive first second l_waits m_waits same there now_h
        own =
      (
        s2,
        ap (λ x. get_elem? x.shared.clients l.started.client) run_both
            ∙ ap (get_elem? (set (set sys.shared.clients l.started.client s1) m.started.client s2))
                (sym same)
            ∙ get_elem?-set_self (set sys.shared.clients l.started.client s1) m.started.client s2 s1
                (at_m s1),
        handler2,
        ap (λ x. get_elem? x.loops i) run_both
            ∙ get_elem?-set_ne (set sys.loops i l1) j i m1 (λ e. apart (sym e))
            ∙ get_elem?-set_self sys.loops i l1 l first,
      )
    where
      l1 : Loop
      l1 = record l { phase = collecting l.started.set.functions [] }

      m1 : Loop
      m1 = record m { phase = collecting m.started.set.functions [] }

      s1 : Session V
      s1 = choose_slave (modbus_protocol modbus) n g (lookup "slave_id" l.started.config) s

      s2 : Session V
      s2 = choose_slave (modbus_protocol modbus) n g (lookup "slave_id" m.started.config) s1

      at_m :
          (x : Session V)
          → get_elem? (set sys.shared.clients l.started.client x) m.started.client ≡ some x
      at_m x =
          ap (get_elem? (set sys.shared.clients l.started.client x)) same
          ∙ get_elem?-set_self sys.shared.clients l.started.client x s there

      sys1 : System (Session V) W
      sys1 = record sys {
        loops = set sys.loops i l1;
        shared = record sys.shared { clients = set sys.shared.clients l.started.client s1 };
      }

      run_both :
          run (modbus_protocol modbus) n g lib marshal now uplinks (turn i ∷ turn j ∷ []) sys
          ≡ record sys1 {
            loops = set sys1.loops j m1;
            shared = record sys1.shared { clients = set sys1.shared.clients m.started.client s2 };
          }
      run_both =
          ap (advance (modbus_protocol modbus) n g lib marshal now uplinks (turn j)) (
            advance-turn (modbus_protocol modbus) n g lib marshal now uplinks i l waiting s sys
              alive first l_waits there)
          ∙ advance-turn (modbus_protocol modbus) n g lib marshal now uplinks j m waiting s1 sys1
              alive (get_elem?-set_ne sys.loops i j l1 apart ∙ second) m_waits (at_m s1)

      handler2 : s2.m.handler ≡ some (record h { slave_id = to_unsigned (2 ^ 8) b })
      handler2 =
          let (slave, e) = choose_slave-handler (lookup "slave_id" l.started.config) s h now_h in
          ap (λ o. (choose_slave (modbus_protocol modbus) n g o s1).m.handler) own
          ∙ unfold choose_slave in
            set_slave-handler (to_unsigned (2 ^ 8) b) s1 (record h { slave_id = slave }) e
