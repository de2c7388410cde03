-- ===== src/Poll/Report.antt =====
-- What every report holds.
use sensor_edge.Edge.{Govaluate}
use sensor_edge.Poll.Retry.{read_with_retry, Protocol}
use sensor_edge.Poll.Convert.{convert, Numerics}
use sensor_edge.Go.{◌>>=◌, panic, err, ok-injective, >>=-eq-ok, ok, Outcome}
use mathlib.Core.Path.{subst}
use text.Mathlib.Text.{◌==◌ as str_eq}
use sensor_edge.Poll.Points.{
  extract_point_addresses, DevicePointSetV2, FunctionPointGroup, PointMapping,
}
use sensor_edge.Value.{PointValue, nil, Value}
use sensor_edge.Prelude.{
  refl, ap, sym, ℕ, none, Option, inr, ◌∙◌, inl, [], some, ◌∷◌, Bool-cases, ◌≡◌, String, List,
}
use sensor_edge.Prelude.Dict.{lookup-insert_self, Dict, lookup, insert, lookup-insert}
use sensor_edge.Poll.Round.{
  choose_slave, values_or_none, report_of, DataReport, next_groups, poll_groups, apply_to,
  poll_round, Poll, poll_group, find_point, store_at, store_values, with_value, declare_points,
}

-- The dictionary has an entry for the name, nil or not.
abbrev pub Has : Dict Value → String → Type 0
Has all name = (v : Value) × (lookup name all ≡ some v)

abbrev pub HasPoints : Dict Value → List PointMapping → Type 0
HasPoints all [] = Unit
HasPoints all (p ∷ ps) = Has all p.name × HasPoints all ps

abbrev pub HasGroups : Dict Value → List FunctionPointGroup → Type 0
HasGroups all [] = Unit
HasGroups all (f ∷ fs) = HasPoints all f.points × HasGroups all fs

-- Every entry of the first is one of the second, perhaps with another value.
abbrev pub Extends : Dict Value → Dict Value → Type 0
Extends all more = (name : String) → Has all name → Has more name

insert-Extends : (name : String) (v : Value) (all : Dict Value) → Extends all (insert name v all)
insert-Extends name v all other (w, e) = elim (Bool-cases (str_eq name other)) [
  | inl same ↦ (v, lookup-insert name other v all ∙ rw same)
  | inr no_ ↦ (w, lookup-insert name other v all ∙ rw (no_, e))
]

pub Extends-trans : (a b c : Dict Value) → Extends a b → Extends b c → Extends a c
Extends-trans a b c f g name h = g name (f name h)

pub Extends-points :
    (a b : Dict Value) (ps : List PointMapping) → Extends a b → HasPoints a ps → HasPoints b ps
Extends-points a b [] f h = tt
Extends-points a b (p ∷ ps) f h = (f p.name h.0, Extends-points a b ps f h.1)

pub declare_points-Extends :
    (ps : List PointMapping) (all : Dict Value) → Extends all (declare_points ps all)
unfolding declare_points
declare_points-Extends [] all = λ name h. h
declare_points-Extends (p ∷ ps) all =
    Extends-trans all _ _ (insert-Extends p.name nil all)
      (declare_points-Extends ps (insert p.name nil all))

pub declare_points-HasPoints :
    (ps : List PointMapping) (all : Dict Value) → HasPoints (declare_points ps all) ps
unfolding declare_points
declare_points-HasPoints [] all = tt
declare_points-HasPoints (p ∷ ps) all = (
  declare_points-Extends ps (insert p.name nil all) p.name (nil, lookup-insert_self p.name nil all),
  declare_points-HasPoints ps (insert p.name nil all),
)

Extends-groups :
    (a b : Dict Value) (fs : List FunctionPointGroup)
    → Extends a b
    → HasGroups a fs
    → HasGroups b fs
Extends-groups a b [] f h = tt
Extends-groups a b (g ∷ gs) f (h, hs) =
    (Extends-points a b g.points f h, Extends-groups a b gs f hs)

-- A dictionary that a computation returns extends the one that it started with.
abbrev pub Grows : Dict Value → Outcome (Dict Value) → Type 0
Grows all r = (all' : Dict Value) → r ≡ ok all' → Extends all all'

ok-Grows : (all : Dict Value) → Grows all (ok all)
ok-Grows all all' e name h = subst (λ d. Has d name) (ok-injective _ _ e) h

module _ (n : Numerics) where
  with_value-Grows :
      (name : String) (all : Dict Value) (r : Outcome Value) → Grows all (with_value name all r)
  with_value-Grows name all (ok v) all' e other h =
      subst (λ d. Has d other) (ok-injective _ _ e) (insert-Extends name v all other h)
  with_value-Grows name all (err x) all' e other h = ok-Grows all all' e other h
  with_value-Grows name all panic all' e other h = cc

  store_at-Grows :
      (p : Option PointMapping) (v : Value) (all : Dict Value) → Grows all (store_at n p v all)
  store_at-Grows none v all = ok-Grows all
  store_at-Grows (some p) v all = with_value-Grows p.name all (convert n p v)

  store_values-Grows :
      (ps : List PointMapping) (vs : List PointValue) (all : Dict Value)
      → Grows all (store_values n ps vs all)
  unfolding store_values
  store_values-Grows ps [] all all' e = ok-Grows all all' e
  store_values-Grows ps (v ∷ vs) all all' e =
      let (mid, first, rest) =
        >>=-eq-ok (store_at n (find_point v.point_id ps) v.value all) (store_values n ps vs) e in
      Extends-trans all mid all' (store_at-Grows (find_point v.point_id ps) v.value all mid first)
        (store_values-Grows ps vs mid all' rest)

  pub poll_group-Grows :
      {P : Type 0} (c : Protocol P) (g : Govaluate) (dev : String) (f : FunctionPointGroup)
      (all : Dict Value) (s : Poll P)
      → Grows (declare_points f.points all) (poll_group c n g dev f all s).0
  unfolding poll_group
  poll_group-Grows {P = P} c g dev f all s =
      let read = read_with_retry c dev f.function (extract_point_addresses f.points) 3 s.driver in
      result read.1 (values_or_none read.0)
    where
      applied :
          (r : Outcome (Dict Value)) (t : Poll P)
          → Grows (declare_points f.points all) r
          → Grows (declare_points f.points all) (apply_to c n g dev r t).0
      applied (ok x) t k = k
      applied (err x) t k = k
      applied panic t k = k

      result :
          (p : P) (r : Outcome (List PointValue))
          → Grows
              (declare_points f.points all)
              (apply_to c n g dev
                (r >>= λ vs. store_values n f.points vs (declare_points f.points all))
                (record s { driver = p })).0
      result p (ok vs) = applied _ _ (store_values-Grows f.points vs (declare_points f.points all))
      result p (err x) = applied (err x) (record s { driver = p }) (λ all' e name h. cc)
      result p panic = applied panic (record s { driver = p }) (λ all' e name h. cc)

  module _ {P : Type 0} (c : Protocol P) (g : Govaluate) where
    -- All points of the groups are in what is collected.
    poll_groups-HasGroups :
        (dev : String) (fs : List FunctionPointGroup) (all : Dict Value) (s : Poll P)
        (all' : Dict Value)
        → (poll_groups c n g dev fs all s).0 ≡ ok all'
        → Extends all all' × HasGroups all' fs
    unfolding poll_groups
    poll_groups-HasGroups dev [] all s all' e = (ok-Grows all all' e, tt)
    poll_groups-HasGroups dev (f ∷ fs) all s all' e =
        result (poll_group c n g dev f all s) (poll_group-Grows c g dev f all s)
          (λ mid t h. poll_groups-HasGroups dev fs mid t all' h) e
      where
        result :
            (r : Outcome (Dict Value) × Poll P)
            → Grows (declare_points f.points all) r.0
            → ((mid : Dict Value) (t : Poll P)
                → (poll_groups c n g dev fs mid t).0 ≡ ok all'
                → Extends mid all' × HasGroups all' fs)
            → (next_groups c n g (poll_groups c n g dev fs) r).0 ≡ ok all'
            → Extends all all' × HasGroups all' (f ∷ fs)
        result (ok mid, t) k others h =
            let (more, rest) = others mid t h in
            let declared = Extends-trans (declare_points f.points all) mid all' (k mid refl) more in
            (
              Extends-trans all (declare_points f.points all) all'
                  (declare_points-Extends f.points all) declared,
              (
                Extends-points (declare_points f.points all) all' f.points declared
                    (declare_points-HasPoints f.points all),
                rest,
              ),
            )
        result (err x, t) k others h = cc
        result (panic, t) k others h = cc

    -- A report of a round has an entry for every point of every function group, those included whose
    -- read failed or did not return the point, and it has no alarms and no metrics, whatever rules the
    -- engine has.
    pub poll_round-HasGroups :
        (set : DevicePointSetV2) (config : Dict Value) (now : ℕ) (s : Poll P) (report : DataReport)
        → (poll_round c n g set config now s).0 ≡ ok report
        → HasGroups report.values set.functions
          × (report.alarms ≡ [])
          × (report.metrics ≡ [])
          × (report.device_id ≡ set.device_id)
    unfolding poll_round
    poll_round-HasGroups set config now s report e =
        let t = record s { driver = choose_slave c n g (lookup "slave_id" config) s.driver } in
        result (poll_groups c n g set.device_id set.functions [] t).0
          (poll_groups-HasGroups set.device_id set.functions [] t) e
      where
        result :
            (r : Outcome (Dict Value))
            → ((all' : Dict Value) → r ≡ ok all' → Extends [] all' × HasGroups all' set.functions)
            → report_of c n g set.device_id now r ≡ ok report
            → HasGroups report.values set.functions
              × (report.alarms ≡ [])
              × (report.metrics ≡ [])
              × (report.device_id ≡ set.device_id)
        result (ok all') k h =
            let same = ok-injective _ _ h in
            (
              subst (λ (r : DataReport). HasGroups r.values set.functions) same (k all' refl).1,
              sym (ap (λ (r : DataReport). r.alarms) same),
              sym (ap (λ (r : DataReport). r.metrics) same),
              sym (ap (λ (r : DataReport). r.device_id) same),
            )
        result (err x) k h = cc
        result panic k h = cc
