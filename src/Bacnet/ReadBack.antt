-- ===== src/Bacnet/ReadBack.antt =====
-- What ReadBatch returns after a Write.
use sensor_edge.Go.{err, ok}
use sensor_edge.Bacnet.Accepts.{accepts, permitted}
use sensor_edge.Value.{PointValue, nil, Value}
use sensor_edge.Edge.{Govaluate}
use text.Mathlib.TextEquality.{eq_iff}
use text.Mathlib.Text.{◌==◌ as str_eq}
use sensor_edge.Prelude.Dict.{lookup-insert, insert, Dict, lookup}
use sensor_edge.Bacnet.Points.{BacnetPoint}
use sensor_edge.Bacnet.Client.{
  not_connected, value_or, current, value_at, read_batch, parse_transform, by_point, by_address,
  resolve, point_or_zero, BacnetClient,
}
use sensor_edge.Prelude.{
  arith, [], ◌∷◌, ℕ, ◌≢◌, ◌&&◌, false, true, ◌∙◌, inr, inl, Bool-cases, refl, none, ap, some, ◌≡◌,
  if◌then◌else◌, Option, String, Bool,
}

-- The value that stands at a key after the point called `name` was replaced.
abbrev pub updated :
    String → BacnetPoint → Option (String × BacnetPoint) → Option (String × BacnetPoint)
updated name pt none = none
updated name pt (some (other, p)) = some (other, if str_eq name other then pt else p)

replaced : (same : Bool) (pt : BacnetPoint) (o : Option BacnetPoint) → BacnetPoint
replaced same pt o = if same then pt else point_or_zero o

point_or_zero-insert :
    (name other : String) (pt : BacnetPoint) (points : Dict BacnetPoint)
    → point_or_zero (lookup other (insert name pt points))
      ≡ (if str_eq name other then pt else point_or_zero (lookup other points))
point_or_zero-insert name other pt points =
    ap point_or_zero (lookup-insert name other pt points) ∙ choose (str_eq name other)
  where
    choose :
        (b : Bool)
        → point_or_zero (if b then some pt else lookup other points)
          ≡ (if b then pt else point_or_zero (lookup other points))
    choose true = refl
    choose false = refl

module _ (c : BacnetClient) (name : String) (old pt : BacnetPoint)
    (there : lookup name c.points ≡ some old) where
  abbrev set_point : BacnetClient
  set_point = record c { points = insert name pt c.points }

  by_address-updated :
      (address id : Option String)
      → by_address set_point address id ≡ updated name pt (by_address c address id)
  by_address-updated (some other) id =
      ap (λ p. some (other, p)) (point_or_zero-insert name other pt c.points)
  by_address-updated none (some other) =
      ap (λ p. some (other, p)) (point_or_zero-insert name other pt c.points)
  by_address-updated none none = refl

  by_point-updated :
      (key : String) (own : Option BacnetPoint)
      → lookup key c.points ≡ own
      → by_point set_point key (lookup key (insert name pt c.points))
        ≡ updated name pt (by_point c key own)
  by_point-updated key (some p) e = elim (Bool-cases (str_eq name key)) [
    | inl same ↦ rw (lookup-insert name key pt c.points, same)
    | inr apart ↦ rw (lookup-insert name key pt c.points, apart, e)
  ]
  by_point-updated key none e = elim (Bool-cases (str_eq name key)) [
    | inl same ↦ absurd (cc (ap (λ k. lookup k c.points) ((eq_iff name key).0 same), there, e))
    | inr apart ↦
        rw (lookup-insert name key pt c.points, apart, e)
          (by_address-updated (lookup key c.address_to_name) (lookup key c.id_to_name))
  ]

  -- Replacing a point that is there changes what its keys stand for, and no other key.
  pub resolve-updated : (key : String) → resolve set_point key ≡ updated name pt (resolve c key)
  unfolding resolve
  resolve-updated key = by_point-updated key (lookup key c.points) refl

-- ReadBatch of one key.
pub read_batch-one :
    (g : Govaluate) (now : ℕ) (key : String) (c : BacnetClient) (o : Option (String × BacnetPoint))
    → c.connected ≡ true
    → resolve c key ≡ o
    → read_batch g now (key ∷ []) c ≡ ok (value_at g now key o ∷ [])
unfolding read_batch
read_batch-one g now key c o online e =
    ap (λ b. if b then ok (value_at g now key (resolve c key) ∷ []) else err not_connected) online
    ∙ ap (λ r. ok (value_at g now key r ∷ [])) e

current_written : (pt : BacnetPoint) (v : Value) → v ≢ nil → current (record pt { value = v }) ≡ v
current_written pt v h = ground arith

parse_transform_none :
    (g : Govaluate) (s : String) (v : Value) → s ≡ "" → parse_transform g s v ≡ some v
unfolding parse_transform
parse_transform_none g s v e = rw ((eq_iff s "").1 e)

-- The value of a point that was written, without a transform.
pub value_at_written :
    (g : Govaluate) (now : ℕ) (key name : String) (pt : BacnetPoint) (v : Value)
    → pt.name ≡ name
    → pt.transform ≡ ""
    → v ≢ nil
    → value_at g now key (some (name, record pt { value = v }))
      ≡ record { point_id = name; value = v; quality = "good"; timestamp = now }
value_at_written g now key name pt v own plain some_value =
    let w = current_written pt v some_value in
    ap (λ x. point_value_of pt.name x)
      (ap (value_or (current (record pt { value = v })))
          (parse_transform_none g pt.transform (current (record pt { value = v })) plain)
        ∙ w)
    ∙ ap (λ s. point_value_of s v) own
  where
    point_value_of : String → Value → PointValue
    point_value_of s x = record { point_id = s; value = x; quality = "good"; timestamp = now }

allowed_connected : (a b d : Bool) → (a && b && d) ≡ true → a ≡ true
allowed_connected true b d e = refl
allowed_connected false b d e = e

pub permitted-connected :
    (c : BacnetClient) (v : Value) (name : String) (pt : BacnetPoint)
    → permitted c v (some (name, pt)) ≡ true
    → c.connected ≡ true
permitted-connected c v name pt e =
    allowed_connected c.connected pt.writable (accepts pt.property_value_type v) e
