-- ===== src/Poll/Decoding.antt =====
-- What the reported value of a point depends on.
use text.Mathlib.Text.{◌==◌ as str_eq}
use sensor_edge.Go.{◌>>=◌, Outcome, ok, err, panic}
use sensor_edge.Prelude.{
  sym, refl, inr, inl, Bool-cases, ap, ◌∙◌, arith, ◌+◌, ◌*◌, [], ◌∷◌, ◌≡◌, ◌^◌, ◌≢◌, ◌<◌, ℕ,
}
use sensor_edge.Value.{uint16, float32, words, Value}
use sensor_edge.Format.{parse_format}
use sensor_edge.Format.Cast.{parse_and_cast_format}
use sensor_edge.Poll.Points.{PointMapping}
use sensor_edge.Poll.Convert.{
  type_value, ignoring, format_value, transform_value, parse_transform, convert, Numerics,
}

-- Under "Float AB CD" two words are taken for the two halves of the float's bit pattern, high half
-- first; a single word is taken for the high half, with zeros for the low half.
pub format_value-float :
    (hi lo : ℕ)
    → hi < 2 ^ 16
    → lo < 2 ^ 16
    → (format_value "Float AB CD" (words (hi ∷ lo ∷ [])) ≡ ok (float32 (hi * 2 ^ 16 + lo)))
      × (format_value "Float AB CD" (uint16 hi) ≡ ok (float32 (hi * 2 ^ 16)))
unfolding format_value parse_and_cast_format parse_format
format_value-float hi lo h l = ground arith

module _ (n : Numerics) where
  transform_ignored :
      (p : PointMapping) (v : Value)
      → parse_transform n p.transform v ≢ panic
      → transform_value n p v ≡ ok v
  unfolding transform_value
  transform_ignored p v h = elim (Bool-cases (str_eq p.transform "")) [
    | inl e ↦ rw e
    | inr e ↦ rw e (result (parse_transform n p.transform v) h)
  ]
    where
      result : (r : Outcome Value) → r ≢ panic → ignoring n v r ≡ ok v
      result (ok x) h = refl
      result (err e) h = refl
      result panic h = absurd (h refl)

  abbrev typed : PointMapping → Outcome Value → Outcome Value
  typed p (ok x) = ok (type_value n p x)
  typed p (err e) = err e
  typed p panic = panic

  convert_plain :
      (p : PointMapping) (v : Value)
      → ((x : Value) → parse_transform n p.transform x ≢ panic)
      → convert n p v ≡ typed p (format_value p.format v)
  unfolding convert
  convert_plain p v h = result (format_value p.format v)
    where
      result :
          (r : Outcome Value)
          → (r >>= λ f. transform_value n p f >>= λ t. ok (type_value n p t)) ≡ typed p r
      result (ok x) = ap (λ r. r >>= λ t. ok (type_value n p t)) (transform_ignored p x (h x))
      result (err e) = refl
      result panic = refl

  typed-kind : (p q : PointMapping) → p.kind ≡ q.kind → (r : Outcome Value) → typed p r ≡ typed q r
  unfolding type_value
  typed-kind p q k (ok x) = rw k
  typed-kind p q k (err e) = refl
  typed-kind p q k panic = refl

  -- A transform that does not panic has no effect: the reported value is the same for any two points
  -- that have the same format and the same type, whatever their transforms are.
  pub convert-transform :
      (p q : PointMapping) (v : Value)
      → p.format ≡ q.format
      → p.kind ≡ q.kind
      → ((x : Value) → parse_transform n p.transform x ≢ panic)
      → ((x : Value) → parse_transform n q.transform x ≢ panic)
      → convert n p v ≡ convert n q v
  convert-transform p q v f k h i =
      convert_plain p v h
      ∙ ap (typed p) (ap (λ s. format_value s v) f)
      ∙ typed-kind p q k (format_value q.format v)
      ∙ sym (convert_plain q v i)
