-- ===== src/Poll/Running.antt =====
-- main.go: the goroutines of all point sets, the two BACnet listeners and the reloading of the rules, one
-- step at a time and in any order. The goroutines share the clients, the rule engine and the uplinks, and
-- the listeners the registered devices. What a listener hears while main still reads its files can be put
-- first, since main does not look at these devices. A step is the making of the ticker, the
-- start of a round, one function group of it, or its end; within a step no other goroutine runs.
pub mod Collected
pub mod Reports
pub mod Follows
pub mod Reload
pub mod Windows
pub mod Turns
pub mod Alone
pub mod Slaves
use sensor_edge.Prelude.Int.{leb_ℤ}
use sensor_edge.Poll.Round.{choose_slave}
use sensor_edge.Go.{◌>>=◌, panic, ok, Outcome}
use sensor_edge.Uplink.Manager.{send_to_all, encode_data_report, Uplink, Channels}
use sensor_edge.Value.{Value}
use sensor_edge.Edge.Extract.{reload_rules, DeviceEdgeRules}
use sensor_edge.Poll.Round.{Poll, poll_group, DataReport}
use sensor_edge.Prelude.Dict.{lookup, Dict}
use sensor_edge.Poll.Convert.{Numerics}
use sensor_edge.Loaders.{Loaded}
use sensor_edge.Edge.{Govaluate, RuleEngine}
use sensor_edge.Bacnet.Registry.{register_device, Registry}
use sensor_edge.Bacnet.Sockets.{listening, main_listening, Received}
use sensor_edge.Poll.Points.{FunctionPointGroup}
use sensor_edge.Poll.Retry.{Protocol}
use sensor_edge.Prelude.{
  false, pos, ◌++◌, none, true, some, set, Option, get_elem?, ◌∷◌, [], if◌then◌else◌, Bool, List, ℕ,
}
use sensor_edge.Poll.Setup.Start.{Started}

-- Where a goroutine is: in front of NewTicker, at the start of a round, or in one, with the groups that
-- are left and allPointValues.
pub data Phase : Type 0 where
  starting : Phase
  waiting : Phase
  collecting : List FunctionPointGroup → Dict Value → Phase

pub record Loop : Type 0 where
  pub started : Started
  pub phase : Phase

-- What the goroutines share. `sent` are the reports that were handed to SendToAll, the first one first.
pub record Shared (P W : Type 0) : Type 0 where
  pub clients : List P
  pub engine : RuleEngine
  pub world : W
  pub sent : List DataReport

pub record System (P W : Type 0) : Type 0 where
  pub loops : List Loop
  pub shared : Shared P W
  pub registry : Registry
  pub crashed : Bool  -- a goroutine that panics ends the program

-- The goroutine at a place takes its next step; a read of the socket of ListenIAM, or of main's own
-- listener, gives this; or SIGHUP arrives, and this is what reading and decoding edge_rules.yaml gives then.
pub data Event : Type 0 where
  turn : ℕ → Event
  heard_by_listen_iam : Received → Event
  heard_by_main : Received → Event
  sighup : Loaded (List DeviceEdgeRules) → Event

-- A registration, or the panic of a listener, which ends the program.
abbrev pub kept_registry : Registry → Outcome Registry → Registry
kept_registry r (ok r') = r'
kept_registry r _ = r

abbrev pub stopped : Outcome Registry → Bool
stopped (ok r) = false
stopped _ = true

-- A read of the socket of ListenIAM, whose handler is RegisterDevice.
abbrev pub listen_iam_hears : {P W : Type 0} → Received → System P W → System P W
listen_iam_hears r sys = record sys { registry = listening register_device (r ∷ []) sys.registry }

-- A read of the socket of main's own listener.
abbrev pub main_hears : {P W : Type 0} → Received → System P W → System P W
main_hears r sys =
    let o = main_listening (r ∷ []) sys.registry in
    record sys { registry = kept_registry sys.registry o; crashed = stopped o }

module _ {P W : Type 0} (c : Protocol P) (n : Numerics) (g : Govaluate) (lib : Channels W)
    (marshal : DataReport → List ℕ) (now : W → ℕ) (uplinks : List Uplink) where
  abbrev pub in_phase : Loop → Phase → Outcome Loop
  in_phase l ph = ok (record l { phase = ph })

  -- time.NewTicker panics unless the interval is positive.
  abbrev pub make_ticker : Loop → Shared P W → Outcome Loop × Shared P W
  make_ticker l s = (if leb_ℤ l.started.interval (pos 0) then panic else in_phase l waiting, s)

  -- The start of a round.
  abbrev pub begin_round : Loop → P → Shared P W → Outcome Loop × Shared P W
  begin_round l p s = (
    in_phase l (collecting l.started.set.functions []),
    record s {
      clients =
          set s.clients l.started.client
            (choose_slave c n g (lookup "slave_id" l.started.config) p);
    },
  )

  -- One function group.
  abbrev pub group_done :
      Loop
      → List FunctionPointGroup
      → Outcome (Dict Value) × Poll P
      → Shared P W
      → Outcome Loop × Shared P W
  group_done l groups (r, q) s = (
    (r >>= λ all. in_phase l (collecting groups all)),
    record s { clients = set s.clients l.started.client q.driver; engine = q.engine },
  )

  -- The end of a round: allAlarms and the outer metrics are still empty, and an error of SendToAll is
  -- printed.
  abbrev pub report_for : Loop → Dict Value → W → DataReport
  report_for l all w = record {
    device_id = l.started.set.device_id;
    timestamp = now w;
    values = all;
    alarms = [];
    metrics = [];
  }

  abbrev pub sent_to : Loop → Outcome (Unit {0}) × W → Shared P W → Outcome Loop × Shared P W
  sent_to l (panic, w) s = (panic, record s { world = w })
  sent_to l (_, w) s = (in_phase l waiting, record s { world = w })

  abbrev pub end_round : Loop → Dict Value → Shared P W → Outcome Loop × Shared P W
  end_round l all s =
      let report = report_for l all s.world in
      let payload =
        encode_data_report marshal report.timestamp report.device_id all report.alarms
          report.metrics in
      sent_to l (send_to_all lib uplinks payload s.world)
        (record s { sent = s.sent ++ report ∷ [] })

  abbrev pub step_in : Loop → Phase → P → Shared P W → Outcome Loop × Shared P W
  step_in l starting p s = make_ticker l s
  step_in l waiting p s = begin_round l p s
  step_in l (collecting [] all) p s = end_round l all s
  step_in l (collecting (group ∷ groups) all) p s =
      group_done l groups
        (poll_group c n g l.started.set.device_id group all
          (record { driver = p; engine = s.engine }))
        s

  -- A goroutine's step, with its client out of the pool.
  abbrev pub with_own_client : Loop → Option P → Shared P W → Outcome Loop × Shared P W
  with_own_client l none s = (panic, s)
  with_own_client l (some p) s = step_in l l.phase p s

  unfoldable pub step : Loop → Shared P W → Outcome Loop × Shared P W
  step l s = with_own_client l (get_elem? s.clients l.started.client) s

  abbrev pub after_step : ℕ → System P W → Outcome Loop × Shared P W → System P W
  after_step i sys (ok l, s) = record sys { loops = set sys.loops i l; shared = s }
  after_step i sys (_, s) = record sys { shared = s; crashed = true }

  abbrev pub turn_of : ℕ → Option Loop → System P W → System P W
  turn_of i none sys = sys
  turn_of i (some l) sys = after_step i sys (step l sys.shared)

  abbrev pub advances : Event → System P W → System P W
  advances (turn i) sys = turn_of i (get_elem? sys.loops i) sys
  advances (heard_by_listen_iam r) sys = listen_iam_hears r sys
  advances (heard_by_main r) sys = main_hears r sys
  advances (sighup (drs, e)) sys = record sys {
    shared = record sys.shared { engine = reload_rules drs sys.shared.engine };
  }

  unfoldable pub advance : Event → System P W → System P W
  advance e sys = if sys.crashed then sys else advances e sys

  unfoldable pub run : List Event → System P W → System P W
  run [] sys = sys
  run (e ∷ es) sys = run es (advance e sys)
