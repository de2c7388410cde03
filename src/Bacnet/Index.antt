-- ===== src/Bacnet/Index.antt =====
-- The maps of the BACnet client agree with each other, whatever calls were made.
use sensor_edge.Go.{panic, ok, err, Outcome}
use sensor_edge.Bacnet.Write.{check_type, checked, write, write_to}
use mathlib.Core.Path.{subst}
use mathlib.Core.Option.{some-injective}
use sensor_edge.Value.{Value}
use sensor_edge.Floats.{Floats}
use sensor_edge.Go.Show.{Printer}
use text.Mathlib.TextEquality.{eq_iff}
use text.Mathlib.Text.{◌==◌ as str_eq}
use sensor_edge.Prelude.Dict.{
  lookup-insert_ne, lookup-insert_self, lookup-insert, insert, lookup, Dict,
}
use sensor_edge.Bacnet.Points.{point_of, BacnetPoint}
use sensor_edge.Prelude.{
  false, if◌then◌else◌, none, true, ◌∷◌, Option, List, refl, ◌∙◌, sym, [], inr, ap, arith, Bool,
  inl, Bool-cases, ◌⊎◌, some, ◌≡◌, String,
}
use sensor_edge.Bacnet.Client.{
  by_point, point_or_zero, by_address, by_name, store_all, init, store_point, resolve, index,
  BacnetClient,
}

abbrev pub Names : BacnetClient → Dict String → Type 0
Names c names =
    (key name : String)
    → lookup key names ≡ some name
    → (pt : BacnetPoint) × (lookup name c.points ≡ some pt)

-- Every point stands under its own name, and the ids and addresses stand for points that are there.
pub record IsIndexed (c : BacnetClient) : Type 0 where
  pub named : (name : String) (pt : BacnetPoint) → lookup name c.points ≡ some pt → pt.name ≡ name
  pub ids : Names c c.id_to_name
  pub addresses : Names c c.address_to_name

-- What stands in the dictionary after an insertion is the new entry or an old one.
lookup-insert_cases {ℓ} :
    {V : Type ℓ} (name other : String) (v w : V) (all : Dict V)
    → lookup other (insert name v all) ≡ some w
    → ((name ≡ other) × (v ≡ w)) ⊎ (lookup other all ≡ some w)
lookup-insert_cases name other v w all e =
    ground (arith, lookup-insert name other v all, eq_iff name other)

-- No entry is lost.
insert_keeps {ℓ} :
    {V : Type ℓ} (name other : String) (v w : V) (all : Dict V)
    → lookup other all ≡ some w
    → (w' : V) × (lookup other (insert name v all) ≡ some w')
insert_keeps name other v w all e = elim (Bool-cases (str_eq name other)) [
  | inl same ↦ (v, lookup-insert name other v all ∙ rw same)
  | inr apart ↦ (w, lookup-insert_ne name other v all apart ∙ e)
]

-- The names of a map still stand for points after a point was set.
Names-insert :
    (name : String) (pt : BacnetPoint) (c : BacnetClient) (names : Dict String)
    → Names c names
    → Names (record c { points = insert name pt c.points }) names
Names-insert name pt c names h key other e =
    let (p, q) = h key other e in insert_keeps name other pt p c.points q

-- A new key for a point that is there.
Names-index :
    (key name : String) (pt : BacnetPoint) (c : BacnetClient) (names : Dict String)
    → lookup name c.points ≡ some pt
    → Names c names
    → Names c (index key name names)
Names-index key name pt c names there h = elim (Bool-cases (str_eq key "")) [
  | inl e ↦ rw e h
  | inr e ↦ rw e (λ other n f. elim (lookup-insert_cases key other name n names f) [
    | inl (_, same) ↦ (pt, ap (λ k. lookup k c.points) (sym same) ∙ there)
    | inr old ↦ h other n old
  ])
]

put-named :
    (name : String) (pt : BacnetPoint) (c : BacnetClient)
    → IsIndexed c
    → pt.name ≡ name
    → (other : String) (p : BacnetPoint) → lookup other (insert name pt c.points) ≡ some p
    → p.name ≡ other
put-named name pt c i own other p e = elim (lookup-insert_cases name other pt p c.points e) [
  | inl (same, is) ↦ ap (λ (q : BacnetPoint). q.name) (sym is) ∙ own ∙ same
  | inr old ↦ i.named other p old
]

store_point-IsIndexed :
    (pt : BacnetPoint) (c : BacnetClient) → IsIndexed c → IsIndexed (store_point pt c)
unfolding store_point
store_point-IsIndexed pt c i =
    let there = lookup-insert_self pt.name pt c.points in
    record {
      named = put-named pt.name pt c i refl;
      ids =
          Names-index pt.id pt.name pt (record c { points = insert pt.name pt c.points })
            c.id_to_name there (Names-insert pt.name pt c c.id_to_name i.ids);
      addresses =
          Names-index pt.address pt.name pt (record c { points = insert pt.name pt c.points })
            c.address_to_name there (Names-insert pt.name pt c c.address_to_name i.addresses);
    }

empty-IsIndexed :
    (device : String) (connected found : Bool)
    → IsIndexed (record {
      device_id = device;
      connected = connected;
      points = [];
      id_to_name = [];
      address_to_name = [];
      discovered = found;
    })
unfolding lookup
empty-IsIndexed device connected found = record {
  named = λ name pt e. absurd (cc e);
  ids = λ key name e. absurd (cc e);
  addresses = λ key name e. absurd (cc e);
}

module _ (pr : Printer) (fl : Floats) where
  store_all-IsIndexed :
      (entries : List (Option (Dict Value))) (c : BacnetClient)
      → IsIndexed c
      → IsIndexed (store_all pr fl entries c)
  unfolding store_all
  store_all-IsIndexed [] c i = i
  store_all-IsIndexed (none ∷ entries) c i = store_all-IsIndexed entries c i
  store_all-IsIndexed (some m ∷ entries) c i =
      store_all-IsIndexed entries (store_point (point_of pr fl c.device_id m) c)
        (store_point-IsIndexed (point_of pr fl c.device_id m) c i)

  pub init-IsIndexed :
      (config : Dict Value) (points : Option (List (Option (Dict Value)))) (c : BacnetClient)
      → IsIndexed (init pr fl config points c)
  unfolding init
  init-IsIndexed config none c = empty-IsIndexed _ true c.discovered
  init-IsIndexed config (some entries) c =
      store_all-IsIndexed entries _ (empty-IsIndexed _ true c.discovered)

-- What a key stands for is a point that is there, under its own name.
abbrev pub Found : BacnetClient → String × BacnetPoint → Type 0
Found c (name, pt) = (lookup name c.points ≡ some pt) × (pt.name ≡ name)

by_name-Found :
    (c : BacnetClient) (name : String) (pt : BacnetPoint)
    → IsIndexed c
    → lookup name c.points ≡ some pt
    → Found c (by_name c name)
by_name-Found c name pt i e =
    subst (λ o. Found c (name, point_or_zero o)) (sym e) (e, i.named name pt e)

by_point-Found :
    (c : BacnetClient) (key : String) (own : Option BacnetPoint) (address id : Option String)
    (r : String × BacnetPoint)
    → IsIndexed c
    → lookup key c.points ≡ own
    → lookup key c.address_to_name ≡ address
    → lookup key c.id_to_name ≡ id
    → elim own [ some pt ↦ some (key, pt) | none ↦ by_address c address id ] ≡ some r
    → Found c r
by_point-Found c key (some pt) address id r i own a d e =
    subst (Found c) (some-injective _ _ e) (own, i.named key pt own)
by_point-Found c key none (some name) id r i own a d e =
    let (pt, q) = i.addresses key name a in
    subst (Found c) (some-injective _ _ e) (by_name-Found c name pt i q)
by_point-Found c key none none (some name) r i own a d e =
    let (pt, q) = i.ids key name d in
    subst (Found c) (some-injective _ _ e) (by_name-Found c name pt i q)
by_point-Found c key none none none r i own a d e = cc

pub resolve-Found :
    (c : BacnetClient) (key : String) (r : String × BacnetPoint)
    → IsIndexed c
    → resolve c key ≡ some r
    → Found c r
unfolding resolve
resolve-Found c key r i e =
    by_point-Found c key (lookup key c.points) (lookup key c.address_to_name)
      (lookup key c.id_to_name) r i refl refl refl (by_point_lem (lookup key c.points) ∙ e)
  where
    by_point_lem :
        (own : Option BacnetPoint)
        → elim own [
          | some pt ↦ some (key, pt)
          | none ↦ by_address c (lookup key c.address_to_name) (lookup key c.id_to_name)
        ]
          ≡ by_point c key own
    by_point_lem none = refl
    by_point_lem (some pt) = refl

either_way :
    {A : Type 0} (b : Bool) (x y : A × BacnetClient)
    → IsIndexed x.1
    → IsIndexed y.1
    → IsIndexed (if b then x else y).1
either_way true x y h k = h
either_way false x y h k = k

write_to-IsIndexed :
    (c : BacnetClient) (key : String) (v : Value) (o : Option (String × BacnetPoint))
    → IsIndexed c
    → ((r : String × BacnetPoint) → o ≡ some r → Found c r)
    → IsIndexed (write_to c key v o).1
write_to-IsIndexed c key v none i f = i
write_to-IsIndexed c key v (some (name, pt)) i f =
    either_way pt.writable _ _ (kept (check_type name pt.property_value_type v)) i
  where
    kept : (r : Outcome (Unit {0})) → IsIndexed (checked c name pt v r).1
    kept (err e) = i
    kept panic = i
    kept (ok _) = record {
      named = put-named name (record pt { value = v }) c i (f (name, pt) refl).1;
      ids = Names-insert name (record pt { value = v }) c c.id_to_name i.ids;
      addresses = Names-insert name (record pt { value = v }) c c.address_to_name i.addresses;
    }

pub write-IsIndexed :
    (key : String) (v : Value) (c : BacnetClient) → IsIndexed c → IsIndexed (write key v c).1
unfolding write
write-IsIndexed key v c i =
    either_way c.connected _ _
      (write_to-IsIndexed c key v (resolve c key) i (λ r. resolve-Found c key r i)) i
