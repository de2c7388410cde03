-- ===== src/Poll/Main/Reporting.antt =====
-- What a run of the program reports.
use sensor_edge.Go.{ok}
use sensor_edge.Edge.{Govaluate}
use sensor_edge.Poll.Retry.{Protocol}
use sensor_edge.Poll.Convert.{Numerics}
use sensor_edge.Poll.Setup.Clients.{Driver}
use sensor_edge.Uplink.Manager.{Channels}
use sensor_edge.Bacnet.Sockets.{Udp}
use sensor_edge.Value.{Value}
use sensor_edge.Prelude.Dict.{Dict}
use sensor_edge.Poll.Round.{DataReport}
use sensor_edge.Loaders.{Decoders, Loaded}
use sensor_edge.Poll.Points.{DevicePointSetV2}
use sensor_edge.Poll.Setup.Start.{Started}
use sensor_edge.Prelude.{
  ℤ, Option, refl, zero, suc, ◌∙◌, some, ap, [], sym, ◌≡◌, ◌∷◌, get_elem?, map, ℕ, String, List,
}
use mathlib.Core.Path.{subst}
use sensor_edge.Poll.Main.Starts.{
  main_at, main_start-Goes, sets_loaded, protocols_loaded, devices_loaded, NewAt, IsNew,
}
use sensor_edge.Poll.Main.Sets.{Goes}
use sensor_edge.Poll.Main.Launched.{AllIn, IsIn, Launched-AllIn}
use sensor_edge.Poll.Setup.Config.{DeviceConfigWithMeta}
use sensor_edge.Poll.Main.{Program, new_loop}
use sensor_edge.Poll.Running.Reports.{run-IsKept}
use sensor_edge.Poll.Running.Collected.{InPhase, AllReported, IsKept}
use sensor_edge.Poll.Running.{run, Loop, starting, Event}

abbrev set_of : Started → DevicePointSetV2
set_of s = s.set

abbrev IsFresh : List DevicePointSetV2 → ℕ → Loop → Type 0
IsFresh sets i l = (get_elem? sets i ≡ some l.started.set) × (l.phase ≡ starting)

new_loop-IsFresh :
    (ss : List Started) (i : ℕ) (l : Loop)
    → get_elem? (map new_loop ss) i ≡ some l
    → IsFresh (map set_of ss) i l
new_loop-IsFresh [] i l e = cc
new_loop-IsFresh (s ∷ ss) zero l e =
    subst (IsFresh (map set_of (s ∷ ss)) 0) {x = new_loop s} {y = l} (cc) (refl, refl)
new_loop-IsFresh (s ∷ ss) (suc i) l e = new_loop-IsFresh ss i l e

set_of-IsIn :
    (sets : List DevicePointSetV2) (ss : List Started) (i : ℕ) (set : DevicePointSetV2)
    → AllIn sets ss
    → get_elem? (map set_of ss) i ≡ some set
    → IsIn sets set
set_of-IsIn sets [] i set h e = cc
set_of-IsIn sets (s ∷ ss) zero set h e = subst (IsIn sets) {x = s.set} {y = set} (cc) h.0
set_of-IsIn sets (s ∷ ss) (suc i) set h e = set_of-IsIn sets ss i set h.1 e

AllReported-in :
    (sets : List DevicePointSetV2) (ss : List Started) (rs : List DataReport)
    → AllIn sets ss
    → AllReported (map set_of ss) rs
    → AllReported sets rs
AllReported-in sets ss [] h k = tt
AllReported-in sets ss (r ∷ rs) h ((i, set, here, report), more) =
    let (j, there) = set_of-IsIn sets ss i set h here in
    ((j, set, there, report), AllReported-in sets ss rs h more)

module _ {P W : Type 0} (d : Driver P) (registry : Dict P) (protocols : Dict (List (Dict Value)))
    (devices : Dict DeviceConfigWithMeta) (sets : List DevicePointSetV2) where
  IsNew-IsKept :
      (prog : Program P W) (h : IsNew d registry protocols devices sets prog)
      → IsKept (map set_of h.started) prog.system
  IsNew-IsKept prog h = record {
    at = λ i l e.
        let (here, fresh) =
          new_loop-IsFresh h.started i l (sym (ap (λ ls. get_elem? ls i) h.are_loops) ∙ e) in
        (here, subst (InPhase l.started.set.functions) (sym fresh) tt);
    reported = subst (AllReported (map set_of h.started)) (sym h.nothing_sent) tt;
  }

module _ {P W : Type 0} (read_file : String → Loaded (List ℕ)) (decode : Decoders)
    (decode_protocols : List ℕ → Loaded (Dict (List (Dict Value)))) (udp : Udp W) (lib : Channels W)
    (d : Driver P) (n : Numerics) (parse_duration : String → Option ℤ) (registry : Dict P)
    (c : Protocol P) (g : Govaluate) (marshal : DataReport → List ℕ) (now : W → ℕ) where
  -- Whatever files main read, whatever devices the discovery found, and in whatever order the goroutines
  -- take their steps, the two listeners hear devices and rules are reloaded: each report that was handed
  -- to SendToAll is one of a point set of points.yaml. It has the set's device and an entry for each point
  -- of each function group, those included whose read failed or did not return the point, and it has no
  -- alarms and no metrics.
  pub run-AllReported :
      (w : W) (prog : Program P W) (es : List Event)
      → main_at read_file decode decode_protocols udp lib d n.floats parse_duration registry w
        ≡ ok prog
      → AllReported
          (sets_loaded read_file decode decode_protocols udp lib d n.floats parse_duration registry)
          (run c n g lib marshal now prog.uplinks es prog.system).shared.sent
  run-AllReported w prog es started =
      let protocols =
        protocols_loaded read_file decode decode_protocols udp lib d n.floats parse_duration
          registry in
      let devs =
        devices_loaded read_file decode decode_protocols udp lib d n.floats parse_duration
          registry in
      let h =
        subst
          (Goes Unit (
            NewAt read_file decode decode_protocols udp lib d n.floats parse_duration registry
              protocols.0 devs.0 w))
          started
          (main_start-Goes read_file decode decode_protocols udp lib d n.floats parse_duration
            registry Unit w (λ config p e. tt) (λ e. tt) (λ e. tt)) in
      AllReported-in _ h.started _ (Launched-AllIn d registry protocols.0 _ _ h.started h.of_sets)
        (run-IsKept c n g lib marshal now prog.uplinks (map set_of h.started) es prog.system
          (IsNew-IsKept d registry protocols.0 _ _ prog h)).reported
