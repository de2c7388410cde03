-- ===== src/Poll/Running/Reports.antt =====
-- What the program reports, in whatever order its goroutines run.
use sensor_edge.Prelude.Int.{leb_ℤ}
use sensor_edge.Uplink.Manager.{send_to_all, encode_data_report, Uplink, Channels}
use sensor_edge.Edge.{Govaluate}
use sensor_edge.Poll.Convert.{Numerics}
use sensor_edge.Poll.Retry.{Protocol}
use sensor_edge.Go.{panic, err, ok, Outcome}
use sensor_edge.Value.{Value}
use sensor_edge.Prelude.Dict.{Dict}
use sensor_edge.Poll.Points.{DevicePointSetV2, FunctionPointGroup}
use sensor_edge.Poll.Round.{poll_group, Poll, declare_points, DataReport}
use sensor_edge.Prelude.{
  false, true, pos, none, refl, if◌then◌else◌, Option, Bool, sym, ◌∙◌, [], some, ◌++◌, ◌≡◌, ◌∷◌,
  get_elem?, ℕ, List,
}
use mathlib.Core.Path.{subst}
use mathlib.Core.List.{append-nil}
use sensor_edge.Poll.Running.{
  sent_to, in_phase, turn_of, report_for, after_step, with_own_client, group_done, advances,
  step_in, end_round, Phase, starting, waiting, collecting, Loop, Shared, System, Event, turn,
  heard_by_listen_iam, heard_by_main, sighup, step, run, advance,
}
use sensor_edge.Poll.Report.{poll_group-Grows, HasGroups, Grows}
use sensor_edge.Poll.Running.Collected.{
  AllReported, AllReported-append, IsThrough, InPhase, LoopAt, IsKept, one_more,
}
use sensor_edge.Prelude.{get_elem?-set}

abbrev LoopAfter : List DevicePointSetV2 → ℕ → Outcome Loop → Type 0
LoopAfter sets i (ok l) = LoopAt sets i l
LoopAfter sets i (err e) = Unit
LoopAfter sets i panic = Unit

module _ {P W : Type 0} (c : Protocol P) (n : Numerics) (g : Govaluate) (lib : Channels W)
    (marshal : DataReport → List ℕ) (now : W → ℕ) (uplinks : List Uplink)
    (sets : List DevicePointSetV2) where
  abbrev Keeps : ℕ → Outcome Loop × Shared P W → Type 0
  Keeps i r = LoopAfter sets i r.0 × AllReported sets r.1.sent

  group_done-Keeps :
      (i : ℕ) (l : Loop) (f : FunctionPointGroup) (left : List FunctionPointGroup)
      (all : Dict Value) (r : Outcome (Dict Value) × Poll P) (s : Shared P W)
      → get_elem? sets i ≡ some l.started.set
      → IsThrough l.started.set.functions (f ∷ left) all
      → Grows (declare_points f.points all) r.0
      → AllReported sets s.sent
      → Keeps i (group_done c n g lib marshal now uplinks l left r s)
  group_done-Keeps i l f left all (ok all', q) s here h grows sent =
      ((here, one_more l.started.set.functions left f all all' h (grows all' refl)), sent)
  group_done-Keeps i l f left all (err e, q) s here h grows sent = (tt, sent)
  group_done-Keeps i l f left all (panic, q) s here h grows sent = (tt, sent)

  end_round-Keeps :
      (i : ℕ) (l : Loop) (all : Dict Value) (s : Shared P W)
      → get_elem? sets i ≡ some l.started.set
      → IsThrough l.started.set.functions [] all
      → AllReported sets s.sent
      → Keeps i (end_round c n g lib marshal now uplinks l all s)
  end_round-Keeps i l all s here h sent = to (send_to_all lib uplinks (payload s.world) s.world)
    where
      payload : W → List ℕ
      payload w = encode_data_report marshal (now w) l.started.set.device_id all [] []

      after :
          AllReported sets (s.sent ++ report_for c n g lib marshal now uplinks l all s.world ∷ [])
      after = AllReported-append sets s.sent _ sent (
        i,
        l.started.set,
        here,
        (
          refl,
          subst (HasGroups all) {x = h.through} {y = l.started.set.functions}
              (sym (h.split ∙ append-nil h.through)) h.have,
          refl,
          refl,
        ),
      )

      to :
          (r : Outcome (Unit {0}) × W)
          → Keeps i (
              sent_to c n g lib marshal now uplinks l r (record s {
                sent = s.sent ++ report_for c n g lib marshal now uplinks l all s.world ∷ [];
              }))
      to (ok x, w) = ((here, tt), after)
      to (err e, w) = ((here, tt), after)
      to (panic, w) = (tt, after)

  make_ticker-Keeps :
      (i : ℕ) (l : Loop) (s : Shared P W) (b : Bool)
      → get_elem? sets i ≡ some l.started.set
      → AllReported sets s.sent
      → Keeps i (if b then panic else in_phase c n g lib marshal now uplinks l waiting, s)
  make_ticker-Keeps i l s true here sent = (tt, sent)
  make_ticker-Keeps i l s false here sent = ((here, tt), sent)

  step_in-Keeps :
      (i : ℕ) (l : Loop) (ph : Phase) (p : P) (s : Shared P W)
      → get_elem? sets i ≡ some l.started.set
      → InPhase l.started.set.functions ph
      → AllReported sets s.sent
      → Keeps i (step_in c n g lib marshal now uplinks l ph p s)
  step_in-Keeps i l starting p s here h sent =
      make_ticker-Keeps i l s (leb_ℤ l.started.interval (pos 0)) here sent
  step_in-Keeps i l waiting p s here h sent =
      ((here, record { through = []; split = refl; have = tt }), sent)
  step_in-Keeps i l (collecting [] all) p s here h sent = end_round-Keeps i l all s here h sent
  step_in-Keeps i l (collecting (f ∷ left) all) p s here h sent =
      group_done-Keeps i l f left all
        (poll_group c n g l.started.set.device_id f all (record { driver = p; engine = s.engine }))
        s here h
        (poll_group-Grows n c g l.started.set.device_id f all
          (record { driver = p; engine = s.engine }))
        sent

  step-Keeps :
      (i : ℕ) (l : Loop) (s : Shared P W)
      → LoopAt sets i l
      → AllReported sets s.sent
      → Keeps i (step c n g lib marshal now uplinks l s)
  unfolding step
  step-Keeps i l s h sent = own (get_elem? s.clients l.started.client)
    where
      own : (o : Option P) → Keeps i (with_own_client c n g lib marshal now uplinks l o s)
      own none = (tt, sent)
      own (some p) = step_in-Keeps i l l.phase p s h.0 h.1 sent

  advances-IsKept :
      (e : Event) (sys : System P W)
      → IsKept sets sys
      → IsKept sets (advances c n g lib marshal now uplinks e sys)
  advances-IsKept (sighup (drs, x)) sys h = record { at = h.at; reported = h.reported }
  advances-IsKept (heard_by_listen_iam r) sys h = record { at = h.at; reported = h.reported }
  advances-IsKept (heard_by_main r) sys h = record { at = h.at; reported = h.reported }
  advances-IsKept (turn i) sys h =
      of_loop (get_elem? sys.loops i)
        (λ l here. step-Keeps i l sys.shared (h.at i l here) h.reported)
    where
      after :
          (r : Outcome Loop × Shared P W)
          → Keeps i r
          → IsKept sets (after_step c n g lib marshal now uplinks i sys r)
      after (ok l, s) k = record {
        at = get_elem?-set (LoopAt sets) sys.loops i l h.at k.0;
        reported = k.1;
      }
      after (err e, s) k = record { at = h.at; reported = k.1 }
      after (panic, s) k = record { at = h.at; reported = k.1 }

      of_loop :
          (o : Option Loop)
          → ((l : Loop) → o ≡ some l → Keeps i (step c n g lib marshal now uplinks l sys.shared))
          → IsKept sets (turn_of c n g lib marshal now uplinks i o sys)
      of_loop none k = h
      of_loop (some l) k = after (step c n g lib marshal now uplinks l sys.shared) (k l refl)

  pub run-IsKept :
      (es : List Event) (sys : System P W)
      → IsKept sets sys
      → IsKept sets (run c n g lib marshal now uplinks es sys)
  unfolding run advance
  run-IsKept [] sys h = h
  run-IsKept (e ∷ es) sys h = run-IsKept es _ (happened sys.crashed)
    where
      happened :
          (b : Bool) → IsKept sets (if b then sys else advances c n g lib marshal now uplinks e sys)
      happened true = h
      happened false = advances-IsKept e sys h
