-- ===== src/Poll/Stored.antt =====
-- What a function group stores for a point.
use text.Mathlib.TextEquality.{eq_iff}
use text.Mathlib.Text.{◌==◌ as str_eq}
use sensor_edge.Prelude.Dict.{
  lookup-insert_ne, lookup-insert_self, lookup-insert, insert, lookup, Dict,
}
use sensor_edge.Value.{Value, PointValue}
use sensor_edge.Go.{◌>>=◌, err, panic, >>=-eq-ok, ok-injective, ok, Outcome}
use sensor_edge.Prelude.{
  String, ◌∙◌, refl, inr, ap, sym, Bool-cases, none, ◌≢◌, inl, some, ◌⊎◌, [], ◌≡◌, Option, ◌∷◌,
  List,
}
use mathlib.Core.Path.{subst}
use sensor_edge.Poll.Round.{find_point, store_values, store_at, with_value}
use sensor_edge.Poll.Points.{PointMapping}
use sensor_edge.Poll.Convert.{convert, Numerics}

abbrev pub In : {A : Type 0} → A → List A → Type 0
In a [] = ⊥
In a (x ∷ xs) = (x ≡ a) ⊎ In a xs

-- An entry of a list that passes.
abbrev pub Any : {A : Type 0} → (A → Type 0) → List A → Type 0
Any P [] = ⊥
Any P (x ∷ xs) = P x ⊎ Any P xs

abbrev pub All : {A : Type 0} → (A → Type 0) → List A → Type 0
All P [] = Unit
All P (x ∷ xs) = P x × All P xs

module _ (n : Numerics) (points : List PointMapping) (p : PointMapping) (x : Value) where
  -- A value that is taken for a point with the name of p becomes x.
  abbrev pub Gives : PointValue → Type 0
  Gives v =
      (q : PointMapping)
      → find_point v.point_id points ≡ some q
      → q.name ≡ p.name
      → convert n q v.value ≡ ok x

  -- A value that is taken for p itself.
  abbrev pub Found : PointValue → Type 0
  Found v = find_point v.point_id points ≡ some p

  -- The entry for p is x.
  abbrev pub Holds : Dict Value → Type 0
  Holds all = lookup p.name all ≡ some x

  with_value-Holds :
      (q : PointMapping) (all all' : Dict Value) (r : Outcome Value)
      → (q.name ≡ p.name → r ≡ ok x)
      → Holds all
      → with_value q.name all r ≡ ok all'
      → Holds all'
  with_value-Holds q all all' (ok v) gives h e =
      subst Holds (ok-injective (insert q.name v all) all' e)
        (elim (Bool-cases (str_eq q.name p.name)) [
          | inl same ↦
              lookup-insert q.name p.name v all
              ∙ rw same (ap some (ok-injective _ _ (gives ((eq_iff q.name p.name).0 same))))
          | inr apart ↦ lookup-insert_ne q.name p.name v all apart ∙ h
        ])
  with_value-Holds q all all' (err y) gives h e = subst Holds (ok-injective all all' e) h
  with_value-Holds q all all' panic gives h e = cc

  store_at-Holds :
      (v : PointValue) (o : Option PointMapping) (all all' : Dict Value)
      → find_point v.point_id points ≡ o
      → Gives v
      → Holds all
      → store_at n o v.value all ≡ ok all'
      → Holds all'
  store_at-Holds v none all all' found gives h e = subst Holds (ok-injective all all' e) h
  store_at-Holds v (some q) all all' found gives h e =
      with_value-Holds q all all' (convert n q v.value) (gives q found) h e

  -- The value that is taken for p is stored.
  store_at-Found :
      (v : PointValue) (all all' : Dict Value)
      → Found v
      → Gives v
      → store_at n (find_point v.point_id points) v.value all ≡ ok all'
      → Holds all'
  store_at-Found v all all' found gives e =
      subst Holds {x = insert p.name x all} {y = all'}
        (ok-injective _ _ (
          sym (
            ap (λ o. store_at n o v.value all) found
            ∙ ap (with_value p.name all) (gives p found refl))
          ∙ e))
        (lookup-insert_self p.name x all)

  pub store_values-Holds :
      (vs : List PointValue) (all all' : Dict Value)
      → All Gives vs
      → Holds all
      → store_values n points vs all ≡ ok all'
      → Holds all'
  unfolding store_values
  store_values-Holds [] all all' gives h e = subst Holds (ok-injective all all' e) h
  store_values-Holds (v ∷ vs) all all' gives h e =
      let (mid, first, rest) =
        >>=-eq-ok (store_at n (find_point v.point_id points) v.value all) (store_values n points vs)
          e in
      store_values-Holds vs mid all' gives.1
        (store_at-Holds v (find_point v.point_id points) all mid refl gives.0 h first) rest

  -- A value for p is among those that were read, and all values for its name become x.
  pub store_values-Found :
      (vs : List PointValue) (all all' : Dict Value)
      → All Gives vs
      → Any Found vs
      → store_values n points vs all ≡ ok all'
      → lookup p.name all' ≡ some x
  unfolding store_values
  store_values-Found [] all all' gives found e = absurd found
  store_values-Found (v ∷ vs) all all' gives (inl found) e =
      let (mid, first, rest) =
        >>=-eq-ok (store_at n (find_point v.point_id points) v.value all) (store_values n points vs)
          e in
      store_values-Holds vs mid all' gives.1 (store_at-Found v all mid found gives.0 first) rest
  store_values-Found (v ∷ vs) all all' gives (inr found) e =
      let (mid, first, rest) =
        >>=-eq-ok (store_at n (find_point v.point_id points) v.value all) (store_values n points vs)
          e in
      store_values-Found vs mid all' gives.1 found rest

module _ (n : Numerics) (points : List PointMapping) where
  -- The conversion of this value does not panic.
  abbrev pub Converts : PointValue → Type 0
  Converts v =
      (q : PointMapping) → find_point v.point_id points ≡ some q → convert n q v.value ≢ panic

  abbrev pub Stores : Outcome (Dict Value) → Type 0
  Stores r = (all' : Dict Value) × (r ≡ ok all')

  with_value-Stores :
      (name : String) (all : Dict Value) (r : Outcome Value)
      → r ≢ panic
      → Stores (with_value name all r)
  with_value-Stores name all (ok v) h = (insert name v all, refl)
  with_value-Stores name all (err e) h = (all, refl)
  with_value-Stores name all panic h = absurd (h refl)

  store_at-Stores :
      (v : PointValue) (o : Option PointMapping) (all : Dict Value)
      → find_point v.point_id points ≡ o
      → Converts v
      → Stores (store_at n o v.value all)
  store_at-Stores v none all e h = (all, refl)
  store_at-Stores v (some q) all e h = with_value-Stores q.name all (convert n q v.value) (h q e)

  pub store_values-Stores :
      (vs : List PointValue) (all : Dict Value)
      → All Converts vs
      → Stores (store_values n points vs all)
  unfolding store_values
  store_values-Stores [] all h = (all, refl)
  store_values-Stores (v ∷ vs) all h =
      let (mid, e) = store_at-Stores v (find_point v.point_id points) all refl h.0 in
      let (last, f) = store_values-Stores vs mid h.1 in
      (last, ap (λ r. r >>= store_values n points vs) e ∙ f)
