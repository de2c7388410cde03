-- ===== src/Poll/Readings.antt =====
-- The values that a batch read gives for the points of a function group.
use sensor_edge.Value.{PointValue, Value}
use sensor_edge.Go.{failing-eq-ok, failing, >>=-eq-ok, ok-injective, ok}
use sensor_edge.Modbus.Address.{parse_address}
use sensor_edge.Modbus.Library.{Library}
use sensor_edge.Prelude.{
  ℕ, refl, ap, leb, inr, inl, Bool-cases, [], ◌∷◌, ◌⊎◌, ◌≡◌, map, List, String,
}
use mathlib.Core.Path.{subst}
use sensor_edge.Poll.Stored.{
  In, Any, Found, Gives, Converts, store_values-Found, store_values-Stores,
}
use sensor_edge.Poll.Points.{PointMapping, extract_point_addresses}
use sensor_edge.Modbus.Batch.Codes.{own_value}
use sensor_edge.Modbus.Batch.Memory.{untimed}
use sensor_edge.Modbus.Batch.Sort.{All-place}
use sensor_edge.Modbus.Batch.{plain}
use sensor_edge.Modbus.Points.{AddrPoint, collect_points, sort_points, place}
use sensor_edge.Modbus.Batch.Sort
use sensor_edge.Poll.Stored

-- An address point is that of a point of the group.
abbrev pub IsOf : List PointMapping → AddrPoint → Type 0
IsOf points a =
    (q : PointMapping) × (In q points)
    × (a.name ≡ q.address)
    × (parse_address q.address ≡ ok a.addr)

abbrev pub Named : String → AddrPoint → Type 0
Named address a = a.name ≡ address

module _ {W : Type 0} (lib : Library W) where
  pub collect_points-IsOf :
      (points group : List PointMapping) (aps : List AddrPoint)
      → ((q : PointMapping) → In q points → In q group)
      → collect_points (map (plain lib) (extract_point_addresses points)) ≡ ok aps
      → Sort.All (IsOf group) aps
  unfolding collect_points extract_point_addresses
  collect_points-IsOf [] group aps sub e = subst (Sort.All (IsOf group)) (ok-injective _ _ e) tt
  collect_points-IsOf (p ∷ ps) group aps sub e =
      let (a, pa, e') = >>=-eq-ok (failing _ (parse_address p.address)) _ e in
      let (rest, pr, e'') =
        >>=-eq-ok (collect_points (map (plain lib) (extract_point_addresses ps))) _ e' in
      subst (Sort.All (IsOf group)) (ok-injective _ _ e'') (
        (p, sub p (inl refl), refl, failing-eq-ok _ (parse_address p.address) pa),
        collect_points-IsOf ps group rest (λ q h. sub q (inr h)) pr,
      )

  pub collect_points-Named :
      (points : List PointMapping) (aps : List AddrPoint) (p : PointMapping)
      → In p points
      → collect_points (map (plain lib) (extract_point_addresses points)) ≡ ok aps
      → Any (Named p.address) aps
  unfolding collect_points extract_point_addresses
  collect_points-Named [] aps p h e = absurd h
  collect_points-Named (q ∷ qs) aps p h e =
      let (a, pa, e') = >>=-eq-ok (failing _ (parse_address q.address)) _ e in
      let (rest, pr, e'') =
        >>=-eq-ok (collect_points (map (plain lib) (extract_point_addresses qs))) _ e' in
      subst (Any (Named p.address)) (ok-injective _ _ e'')
        (here_or_there rest h (λ k. collect_points-Named qs rest p k pr))
    where
      here_or_there :
          (rest : List AddrPoint)
          → (q ≡ p) ⊎ In p qs
          → (In p qs → Any (Named p.address) rest)
          → (q.address ≡ p.address) ⊎ Any (Named p.address) rest
      here_or_there rest (inl same) k = inl (ap (λ (r : PointMapping). r.address) same)
      here_or_there rest (inr more) k = inr (k more)

Any-place_here :
    (P : AddrPoint → Type 0) (p : AddrPoint) (ps : List AddrPoint) → P p → Any P (place p ps)
unfolding place
Any-place_here P p [] h = inl h
Any-place_here P p (q ∷ qs) h = elim (Bool-cases (leb p.addr q.addr)) [
  | inl e ↦ rw e (inl h)
  | inr e ↦ rw e (inr (Any-place_here P p qs h))
]

Any-place_there :
    (P : AddrPoint → Type 0) (p : AddrPoint) (ps : List AddrPoint) → Any P ps → Any P (place p ps)
unfolding place
Any-place_there P p [] h = inr h
Any-place_there P p (q ∷ qs) (inl h) = elim (Bool-cases (leb p.addr q.addr)) [
  | inl e ↦ rw e (inr (inl h))
  | inr e ↦ rw e (inl h)
]
Any-place_there P p (q ∷ qs) (inr h) = elim (Bool-cases (leb p.addr q.addr)) [
  | inl e ↦ rw e (inr (inr h))
  | inr e ↦ rw e (inr (Any-place_there P p qs h))
]

pub sort_points-Any :
    (P : AddrPoint → Type 0) (aps : List AddrPoint) → Any P aps → Any P (sort_points aps)
unfolding sort_points
sort_points-Any P [] h = h
sort_points-Any P (a ∷ aps) (inl h) = Any-place_here P a (sort_points aps) h
sort_points-Any P (a ∷ aps) (inr h) =
    Any-place_there P a (sort_points aps) (sort_points-Any P aps h)

pub sort_points-All :
    (P : AddrPoint → Type 0) (aps : List AddrPoint) → Sort.All P aps → Sort.All P (sort_points aps)
unfolding sort_points
sort_points-All P [] h = tt
sort_points-All P (a ∷ aps) h = All-place P a (sort_points aps) h.0 (sort_points-All P aps h.1)

-- A value that was read for a point of the group.
abbrev pub IsRead : List PointMapping → (ℕ → Value) → PointValue → Type 0
IsRead group held v =
    (q : PointMapping) × (addr : ℕ) × (In q group)
    × (v.point_id ≡ q.address)
    × (parse_address q.address ≡ ok addr)
    × (v.value ≡ held addr)

abbrev pub IdIs : String → PointValue → Type 0
IdIs address v = v.point_id ≡ address

module _ (group : List PointMapping) (held : ℕ → Value) where
  pub words-IsRead :
      (vs : List PointValue) (aps : List AddrPoint)
      → map untimed vs ≡ map (own_value held) aps
      → Sort.All (IsOf group) aps
      → Stored.All (IsRead group held) vs
  words-IsRead [] aps e h = tt
  words-IsRead (v ∷ vs) [] e h = cc
  words-IsRead (v ∷ vs) (a ∷ aps) e ((q, here, named, parsed), more) =
      ((q, a.addr, here, cc, parsed, cc), words-IsRead vs aps (cc) more)

  pub words-Any :
      (address : String) (vs : List PointValue) (aps : List AddrPoint)
      → map untimed vs ≡ map (own_value held) aps
      → Any (Named address) aps
      → Any (IdIs address) vs
  words-Any address [] [] e h = h
  words-Any address [] (a ∷ aps) e h = cc
  words-Any address (v ∷ vs) [] e h = absurd h
  words-Any address (v ∷ vs) (a ∷ aps) e (inl h) = inl (cc)
  words-Any address (v ∷ vs) (a ∷ aps) e (inr h) = inr (words-Any address vs aps (cc) h)

pub All-In : {A : Type 0} (P : A → Type 0) (q : A) (xs : List A) → In q xs → Stored.All P xs → P q
All-In P q [] h all = absurd h
All-In P q (x ∷ xs) (inl same) all = subst P same all.0
All-In P q (x ∷ xs) (inr h) all = All-In P q xs h all.1

pub All-map :
    {A : Type 0} (P Q : A → Type 0) (xs : List A)
    → ((a : A) → P a → Q a)
    → Stored.All P xs
    → Stored.All Q xs
All-map P Q [] f h = tt
All-map P Q (x ∷ xs) f h = (f x h.0, All-map P Q xs f h.1)

pub Any-map :
    {A : Type 0} (P Q : A → Type 0) (xs : List A) → ((a : A) → P a → Q a) → Any P xs → Any Q xs
Any-map P Q [] f h = h
Any-map P Q (x ∷ xs) f (inl h) = inl (f x h)
Any-map P Q (x ∷ xs) f (inr h) = inr (Any-map P Q xs f h)
