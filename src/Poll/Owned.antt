-- ===== src/Poll/Owned.antt =====
-- Points that their own addresses find, and what a read value becomes for them.
use text.Mathlib.Text.{◌==◌ as str_eq}
use text.Mathlib.TextEquality.{eq_iff}
use mathlib.Core.Path.{subst}
use sensor_edge.Poll.Stored.{In, Found, Gives, Converts}
use sensor_edge.Poll.Readings.{All-In, IsRead, IdIs}
use sensor_edge.Poll.Round.{find_point, declare_points}
use sensor_edge.Go.{ok-injective, panic, ok}
use sensor_edge.Prelude.Dict.{Dict, lookup, insert, lookup-insert_ne}
use sensor_edge.Value.{nil, PointValue, Value}
use sensor_edge.Modbus.Address.{parse_address}
use sensor_edge.Poll.Points.{PointMapping}
use sensor_edge.Prelude.{
  ◌≢◌, ◌⊎◌, inl, inr, [], ◌∷◌, Bool-cases, ap, ◌∙◌, refl, sym, some, ◌≡◌, ℕ, List,
}
use sensor_edge.Poll.Convert.{convert, Numerics}
use sensor_edge.Poll.Stored

-- The point's address finds this point, and no point before it.
abbrev pub Own : List PointMapping → PointMapping → Type 0
Own points q = find_point q.address points ≡ some q

-- The point is p if it has p's name.
abbrev pub OnlyName : PointMapping → PointMapping → Type 0
OnlyName p q = q.name ≡ p.name → q ≡ p

-- A group of points with at most p for its name either has p, or leaves its entry alone.
pub declare_points-named :
    (p : PointMapping) (ps : List PointMapping) (all : Dict Value)
    → Stored.All (OnlyName p) ps
    → In p ps ⊎ (lookup p.name (declare_points ps all) ≡ lookup p.name all)
unfolding declare_points
declare_points-named p [] all only = inr refl
declare_points-named p (q ∷ qs) all only = elim (Bool-cases (str_eq q.name p.name)) [
  | inl same ↦ inl (inl (only.0 ((eq_iff q.name p.name).0 same)))
  | inr apart ↦ elim (declare_points-named p qs (insert q.name nil all) only.1) [
    | inl here ↦ inl (inr here)
    | inr kept ↦ inr (kept ∙ lookup-insert_ne q.name p.name nil all apart)
  ]
]

module _ (n : Numerics) (points : List PointMapping) (held : ℕ → Value) where
  -- The conversion of what the point's address names does not panic.
  abbrev pub Quiet : PointMapping → Type 0
  Quiet q = (a : ℕ) → parse_address q.address ≡ ok a → convert n q (held a) ≢ panic

  same_point :
      (v : PointValue) (q r : PointMapping)
      → v.point_id ≡ q.address
      → Own points q
      → find_point v.point_id points ≡ some r
      → q ≡ r
  same_point v q r id own found =
      let e = sym own ∙ ap (λ i. find_point i points) (sym id) ∙ found in cc

  pub read-Converts :
      Stored.All (Own points) points
      → Stored.All Quiet points
      → (v : PointValue) → IsRead points held v
      → Converts n points v
  read-Converts own quiet v (q, a, here, id, parsed, value) r found e =
      All-In Quiet q points here quiet a parsed (
        ap (λ i. convert n i (held a))
          (same_point v q r id (All-In (Own points) q points here own) found)
        ∙ ap (convert n r) (sym value)
        ∙ e)

  pub read-Gives :
      (p : PointMapping) (a : ℕ) (x : Value)
      → Stored.All (Own points) points
      → Stored.All (OnlyName p) points
      → parse_address p.address ≡ ok a
      → (In p points → convert n p (held a) ≡ ok x)
      → (v : PointValue) → IsRead points held v
      → Gives n points p x v
  read-Gives p a x own only at conv v (q, b, here, id, parsed, value) r found name =
      let same_r = same_point v q r id (All-In (Own points) q points here own) found in
      let same_p =
        All-In (OnlyName p) q points here only (ap (λ (i : PointMapping). i.name) same_r ∙ name) in
      let same_a =
        ok-injective b a
          (sym parsed ∙ ap (λ (i : PointMapping). parse_address i.address) same_p ∙ at) in
      ap (λ i. convert n i v.value) (sym same_r ∙ same_p)
      ∙ ap (convert n p) (value ∙ ap (λ i. held i) same_a)
      ∙ conv (subst (λ i. In i points) same_p here)

  pub id-Found :
      (p : PointMapping) (x : Value)
      → Own points p
      → (v : PointValue) → IdIs p.address v
      → Found n points p x v
  id-Found p x own v id = ap (λ i. find_point i points) id ∙ own
