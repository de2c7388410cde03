-- ===== src/Poll/Running/Alone.antt =====
-- A round of one goroutine, whose steps no other goroutine interrupts.
use sensor_edge.Edge.{Govaluate, RuleEngine}
use sensor_edge.Go.{panic, err, ok, Outcome}
use sensor_edge.Poll.Points.{FunctionPointGroup}
use sensor_edge.Poll.Round.{
  Poll, DataReport, poll_group, poll_groups, poll_round, next_groups, choose_slave, report_of,
}
use sensor_edge.Poll.Convert.{Numerics}
use sensor_edge.Poll.Retry.{Protocol}
use sensor_edge.Poll.Running.{
  run, advance, after_step, group_done, sent_to, report_for, Phase, waiting, collecting, Loop,
  System, turn,
}
use sensor_edge.Prelude.{
  get_elem?-set_self, ap, sym, refl, [], false, true, ◌∷◌, ◌++◌, ◌∙◌, ◌⊎◌, inl, inr, some, suc,
  length, replicate, ◌≡◌, get_elem?, ℕ, List,
}
use sensor_edge.Poll.Running.Turns.{advance-turn}
use sensor_edge.Prelude.Dict.{lookup, Dict}
use sensor_edge.Uplink.Manager.{encode_data_report, send_to_all, Uplink, Channels}
use sensor_edge.Value.{Value}
use mathlib.Core.Path.{subst}

module _ {P W : Type 0} (c : Protocol P) (n : Numerics) (g : Govaluate) (lib : Channels W)
    (marshal : DataReport → List ℕ) (now : W → ℕ) (uplinks : List Uplink) where
  next_groups-eq-ok :
      (more : Dict Value → Poll P → Outcome (Dict Value) × Poll P)
      (r : Outcome (Dict Value) × Poll P) (all' : Dict Value) (u : Poll P)
      → next_groups c n g more r ≡ (ok all', u)
      → (mid : Dict Value) × (t : Poll P) × (r ≡ (ok mid, t)) × (more mid t ≡ (ok all', u))
  next_groups-eq-ok more (ok mid, t) all' u e = (mid, t, refl, e)
  next_groups-eq-ok more (err x, t) all' u e = cc
  next_groups-eq-ok more (panic, t) all' u e = cc

  module _ (i : ℕ) (l : Loop) (w : W) (rs : List DataReport) where
    -- The goroutine is in this phase, with this driver and this engine.
    abbrev pub IsAt : Phase → Poll P → System P W → Type 0
    IsAt ph s sys =
        (sys.crashed ≡ false)
        × (get_elem? sys.loops i ≡ some (record l { phase = ph }))
        × (get_elem? sys.shared.clients l.started.client ≡ some s.driver)
        × (sys.shared.engine ≡ s.engine)
        × (sys.shared.world ≡ w)
        × (sys.shared.sent ≡ rs)

    abbrev report_at : Dict Value → DataReport
    report_at all = report_for c n g lib marshal now uplinks l all w

    report_of-eq-ok :
        (r : Outcome (Dict Value) × Poll P) (report : DataReport) (u : Poll P)
        → ◌≡◌ {A = Outcome DataReport × Poll P}
            (report_of c n g l.started.set.device_id (now w) r.0, r.1)
            (ok report, u)
        → (all : Dict Value) × (r ≡ (ok all, u)) × (report_at all ≡ report)
    report_of-eq-ok (ok all, t) report u e = (all, cc, cc)
    report_of-eq-ok (err x, t) report u e = cc
    report_of-eq-ok (panic, t) report u e = cc

    abbrev pub sending : DataReport → Outcome (Unit {0}) × W
    sending r =
        send_to_all lib uplinks
          (encode_data_report marshal r.timestamp r.device_id r.values r.alarms r.metrics) w

    -- The report is sent; unless this panicked, the goroutine waits for its next round.
    abbrev pub IsSent : DataReport → Poll P → System P W → Type 0
    IsSent r u sys =
        (sys.shared.sent ≡ rs ++ r ∷ [])
        × (sys.shared.engine ≡ u.engine)
        × (get_elem? sys.shared.clients l.started.client ≡ some u.driver)
        × (sys.shared.world ≡ (sending r).1)
        × ((((sending r).0 ≡ panic) × (sys.crashed ≡ true))
            ⊎ ((sys.crashed ≡ false)
                × (get_elem? sys.loops i ≡ some (record l { phase = waiting }))))

    abbrev turns : ℕ → System P W → System P W
    turns k sys = run c n g lib marshal now uplinks (replicate k (turn i)) sys

    sent_to-IsSent :
        (all : Dict Value) (u : Poll P) (sys : System P W) (r : Outcome (Unit {0}) × W)
        → IsAt (collecting [] all) u sys
        → sending (report_at all) ≡ r
        → IsSent (report_at all) u (
            after_step c n g lib marshal now uplinks i sys (
              sent_to c n g lib marshal now uplinks
                (record l { phase = collecting [] all })
                r
                (record sys.shared { sent = sys.shared.sent ++ report_at all ∷ [] })))
    sent_to-IsSent all u sys (panic, w') (alive, here, there, engine, world, sent) e = (
      ap (λ ss. ss ++ report_at all ∷ []) sent,
      engine,
      there,
      ap (λ r. r.1) (sym e),
      inl (ap (λ r. r.0) e, refl),
    )
    sent_to-IsSent all u sys (ok x, w') (alive, here, there, engine, world, sent) e = (
      ap (λ ss. ss ++ report_at all ∷ []) sent,
      engine,
      there,
      ap (λ r. r.1) (sym e),
      inr (alive, get_elem?-set_self sys.loops i _ _ here),
    )
    sent_to-IsSent all u sys (err x, w') (alive, here, there, engine, world, sent) e = (
      ap (λ ss. ss ++ report_at all ∷ []) sent,
      engine,
      there,
      ap (λ r. r.1) (sym e),
      inr (alive, get_elem?-set_self sys.loops i _ _ here),
    )

    end-IsSent :
        (all : Dict Value) (u : Poll P) (sys : System P W)
        → IsAt (collecting [] all) u sys
        → IsSent (report_at all) u (turns 1 sys)
    unfolding run
    end-IsSent all u sys at =
        let (alive, here, there, engine, world, sent) = at in
        let l' : Loop = record l { phase = collecting [] all } in
        let ended : W → System P W = λ v. after_step c n g lib marshal now uplinks i sys (
          let r = report_for c n g lib marshal now uplinks l' all v in
          sent_to c n g lib marshal now uplinks l'
            (send_to_all lib uplinks
              (encode_data_report marshal r.timestamp r.device_id all r.alarms r.metrics) v)
            (record sys.shared { sent = sys.shared.sent ++ r ∷ [] })) in
        subst (IsSent (report_at all) u)
          (sym (
            advance-turn c n g lib marshal now uplinks i l' (collecting [] all) u.driver sys alive
              here refl there
            ∙ ap ended world))
          (sent_to-IsSent all u sys (sending (report_at all)) at refl)

    -- A function group.
    group-IsAt :
        (group : FunctionPointGroup) (groups : List FunctionPointGroup) (all mid : Dict Value)
        (s t : Poll P) (sys : System P W)
        → IsAt (collecting (group ∷ groups) all) s sys
        → poll_group c n g l.started.set.device_id group all s ≡ (ok mid, t)
        → IsAt (collecting groups mid) t (advance c n g lib marshal now uplinks (turn i) sys)
    group-IsAt group groups all mid s t sys (alive, here, there, engine, world, sent) polled =
        let l' : Loop = record l { phase = collecting (group ∷ groups) all } in
        let done : Outcome (Dict Value) × Poll P → System P W = λ r.
          after_step c n g lib marshal now uplinks i sys
            (group_done c n g lib marshal now uplinks l' groups r sys.shared) in
        let same : poll_group c n g l.started.set.device_id group all
              (record { driver = s.driver; engine = sys.shared.engine })
            ≡ (ok mid, t) =
          ap
            (λ (e : RuleEngine).
              poll_group c n g l.started.set.device_id group all
                (record { driver = s.driver; engine = e }))
            engine
          ∙ polled in
        subst (IsAt (collecting groups mid) t)
          (sym (
            advance-turn c n g lib marshal now uplinks i l' (collecting (group ∷ groups) all)
              s.driver sys alive here refl there
            ∙ ap done same))
          (
            alive,
            get_elem?-set_self sys.loops i _ _ here,
            get_elem?-set_self sys.shared.clients l.started.client t.driver s.driver there,
            refl,
            world,
            sent,
          )

    groups-IsSent :
        (groups : List FunctionPointGroup) (all all' : Dict Value) (s u : Poll P) (sys : System P W)
        → IsAt (collecting groups all) s sys
        → poll_groups c n g l.started.set.device_id groups all s ≡ (ok all', u)
        → IsSent (report_at all') u (turns (suc (length groups)) sys)
    unfolding run poll_groups
    groups-IsSent [] all all' s u sys at e =
        let same : all ≡ all' = cc in
        let driver : s ≡ u = ap (λ (r : Outcome (Dict Value) × Poll P). r.1) e in
        subst (λ (d : Poll P). IsSent (report_at all') d (turns 1 sys)) driver
          (subst (λ (d : Dict Value). IsSent (report_at d) s (turns 1 sys)) same
            (end-IsSent all s sys at))
    groups-IsSent (group ∷ groups) all all' s u sys at e =
        let (mid, t, first, rest) =
          next_groups-eq-ok (poll_groups c n g l.started.set.device_id groups)
            (poll_group c n g l.started.set.device_id group all s) all' u e in
        groups-IsSent groups mid all' t u (advance c n g lib marshal now uplinks (turn i) sys)
          (group-IsAt group groups all mid s t sys at first) rest

    -- Take a goroutine that waits for its next round, and as many steps of it in a row as its point set
    -- has function groups, and two. If poll_round with the goroutine's client and the rule engine makes a
    -- report, then this report is handed to SendToAll at that time, and the client and the rule engine
    -- are left as poll_round leaves them. The goroutine then waits again, unless SendToAll panics, which
    -- ends the program.
    pub turns-poll_round :
        (p : P) (sys : System P W) (report : DataReport) (u : Poll P)
        → IsAt waiting (record { driver = p; engine = sys.shared.engine }) sys
        → poll_round c n g l.started.set l.started.config
            (now w)
            (record { driver = p; engine = sys.shared.engine })
          ≡ (ok report, u)
        → IsSent report u (turns (suc (suc (length l.started.set.functions))) sys)
    unfolding run poll_round
    turns-poll_round p sys report u (alive, here, there, engine, world, sent) polled =
        let q = choose_slave c n g (lookup "slave_id" l.started.config) p in
        let s : Poll P = record { driver = q; engine = sys.shared.engine } in
        let (all, e, same) =
          report_of-eq-ok (poll_groups c n g l.started.set.device_id l.started.set.functions [] s)
            report u polled in
        let l' : Loop = record l { phase = waiting } in
        let begun =
          advance-turn c n g lib marshal now uplinks i l' waiting p sys alive here refl there in
        subst (λ r. IsSent r u (turns (suc (suc (length l.started.set.functions))) sys)) same
          (groups-IsSent l.started.set.functions [] all s u
            (advance c n g lib marshal now uplinks (turn i) sys)
            (subst (IsAt (collecting l.started.set.functions []) s) (sym begun) (
              alive,
              get_elem?-set_self sys.loops i _ _ here,
              get_elem?-set_self sys.shared.clients l.started.client q p there,
              refl,
              world,
              sent,
            ))
            e)
