-- ===== src/Drivers/Batch.antt =====
-- The loop that ReadBatch is in the drivers tcpclient, slmp, s7 and snmp: each point is asked for by
-- itself, and one that fails is reported as bad.
use sensor_edge.Value.{nil, PointValue, Value}
use sensor_edge.Go.{ok-injective, panic, err, ◌>>=◌, ok, Outcome}
use sensor_edge.Prelude.{refl, ◌∙◌, none, ap, [], map, ◌∷◌, ◌≡◌, some, List, Option, ℕ, String}

-- The two values that the loops append.
abbrev pub batch_value : String → ℕ → Option Value → PointValue
batch_value pt now (some v) = record { point_id = pt; value = v; quality = "good"; timestamp = now }
batch_value pt now none = record { point_id = pt; value = nil; quality = "bad"; timestamp = now }

module _ {W : Type 0} (unix : W → ℕ) (ask : String → W → Outcome (Option Value) × W) where
  abbrev pub add_value :
      String
      → (W → Outcome (List PointValue) × W)
      → Outcome (Option Value) × W
      → Outcome (List PointValue) × W
  add_value pt more (ok v, w) =
      let (r, w') = more w in (r >>= (λ vs. ok (batch_value pt (unix w) v ∷ vs)), w')
  add_value pt more (err e, w) = (err e, w)
  add_value pt more (panic, w) = (panic, w)

  unfoldable pub ask_points : List String → W → Outcome (List PointValue) × W
  ask_points [] w = (ok [], w)
  ask_points (pt ∷ pts) w = add_value pt (ask_points pts) (ask pt w)

  -- Where each question is answered, with a value or with none, all points are in the result, in order.
  pub ask_points-point_id :
      (pts : List String) (w : W)
      → ((pt : String) (w : W) → (o : Option Value) × ((ask pt w).0 ≡ ok o))
      → (vs : List PointValue) × ((ask_points pts w).0 ≡ ok vs)
        × (map (λ (v : PointValue). v.point_id) vs ≡ pts)
  unfolding ask_points
  ask_points-point_id [] w answers = ([], refl, refl)
  ask_points-point_id (pt ∷ pts) w answers =
      let (o, e) = answers pt w in
      let (vs, f, ids) = ask_points-point_id pts (ask pt w).1 answers in
      (
        batch_value pt (unix (ask pt w).1) o ∷ vs,
        added (ask pt w) o e vs f,
        id_first o (unix (ask pt w).1) vs ids,
      )
    where
      added :
          (r : Outcome (Option Value) × W) (o : Option Value)
          → r.0 ≡ ok o
          → (vs : List PointValue) → (ask_points pts r.1).0 ≡ ok vs
          → (add_value pt (ask_points pts) r).0 ≡ ok (batch_value pt (unix r.1) o ∷ vs)
      added (ok v, w') o e vs f =
          ap (λ s. s >>= (λ us. ok (batch_value pt (unix w') v ∷ us))) f
          ∙ ap (λ x. ok (batch_value pt (unix w') x ∷ vs)) (ok-injective _ _ e)
      added (err x, w') o e vs f = cc
      added (panic, w') o e vs f = cc

      id_first :
          (o : Option Value) (now : ℕ) (vs : List PointValue)
          → map (λ (v : PointValue). v.point_id) vs ≡ pts
          → map (λ (v : PointValue). v.point_id) (batch_value pt now o ∷ vs) ≡ pt ∷ pts
      id_first (some v) now vs e = ap (λ l. pt ∷ l) e
      id_first none now vs e = ap (λ l. pt ∷ l) e
