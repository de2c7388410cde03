-- ===== src/Poll/Running/Collected.antt =====
-- What a goroutine has collected, and what the reports hold.
use sensor_edge.Value.{Value}
use sensor_edge.Prelude.Dict.{Dict}
use sensor_edge.Poll.Points.{DevicePointSetV2, FunctionPointGroup}
use sensor_edge.Poll.Round.{declare_points, DataReport}
use sensor_edge.Prelude.{sym, ◌∙◌, set, [], some, ◌++◌, ◌≡◌, ◌∷◌, get_elem?, ℕ, List}
use mathlib.Core.List.{append_assoc}
use sensor_edge.Poll.Running.{Phase, starting, waiting, collecting, Loop, System}
use sensor_edge.Poll.Report.{
  declare_points-HasPoints, declare_points-Extends, Extends-trans, Extends-points, HasGroups,
  HasPoints, Extends,
}

abbrev pub IsReportOf : DataReport → DevicePointSetV2 → Type 0
IsReportOf r set =
    (r.device_id ≡ set.device_id)
    × HasGroups r.values set.functions
    × (r.alarms ≡ [])
    × (r.metrics ≡ [])

abbrev pub IsReported : List DevicePointSetV2 → DataReport → Type 0
IsReported sets r =
    (i : ℕ) × (set : DevicePointSetV2) × (get_elem? sets i ≡ some set) × IsReportOf r set

abbrev pub AllReported : List DevicePointSetV2 → List DataReport → Type 0
AllReported sets [] = Unit
AllReported sets (r ∷ rs) = IsReported sets r × AllReported sets rs

pub AllReported-append :
    (sets : List DevicePointSetV2) (rs : List DataReport) (r : DataReport)
    → AllReported sets rs
    → IsReported sets r
    → AllReported sets (rs ++ r ∷ [])
AllReported-append sets [] r h k = (k, tt)
AllReported-append sets (x ∷ rs) r h k = (h.0, AllReported-append sets rs r h.1 k)

-- The groups that a goroutine is through with have their points in allPointValues.
pub record IsThrough (groups left : List FunctionPointGroup) (all : Dict Value) : Type 0 where
  pub through : List FunctionPointGroup
  pub split : groups ≡ through ++ left
  pub have : HasGroups all through

abbrev pub InPhase : List FunctionPointGroup → Phase → Type 0
InPhase groups starting = Unit
InPhase groups waiting = Unit
InPhase groups (collecting left all) = IsThrough groups left all

abbrev pub LoopAt : List DevicePointSetV2 → ℕ → Loop → Type 0
LoopAt sets i l = (get_elem? sets i ≡ some l.started.set) × InPhase l.started.set.functions l.phase

pub record IsKept {P W : Type 0} (sets : List DevicePointSetV2) (sys : System P W) : Type 0 where
  pub at : (i : ℕ) (l : Loop) → get_elem? sys.loops i ≡ some l → LoopAt sets i l
  pub reported : AllReported sets sys.shared.sent

HasGroups-Extends :
    (fs : List FunctionPointGroup) (all more : Dict Value)
    → Extends all more
    → HasGroups all fs
    → HasGroups more fs
HasGroups-Extends [] all more f h = tt
HasGroups-Extends (g ∷ fs) all more f h =
    (Extends-points all more g.points f h.0, HasGroups-Extends fs all more f h.1)

HasGroups-append :
    (fs : List FunctionPointGroup) (g : FunctionPointGroup) (all : Dict Value)
    → HasGroups all fs
    → HasPoints all g.points
    → HasGroups all (fs ++ g ∷ [])
HasGroups-append [] g all h k = (k, tt)
HasGroups-append (f ∷ fs) g all h k = (h.0, HasGroups-append fs g all h.1 k)

pub one_more :
    (groups left : List FunctionPointGroup) (g : FunctionPointGroup) (all all' : Dict Value)
    → IsThrough groups (g ∷ left) all
    → Extends (declare_points g.points all) all'
    → IsThrough groups left all'
one_more groups left g all all' h grows = record {
  through = h.through ++ g ∷ [];
  split = h.split ∙ sym (append_assoc h.through (g ∷ []) left);
  have =
      HasGroups-append h.through g all'
        (HasGroups-Extends h.through all all'
          (Extends-trans all (declare_points g.points all) all'
            (declare_points-Extends g.points all) grows)
          h.have)
        (Extends-points (declare_points g.points all) all' g.points grows
          (declare_points-HasPoints g.points all));
}
