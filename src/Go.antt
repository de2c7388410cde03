-- ===== src/Go.antt =====
-- What the models share of Go itself: errors, calls that return `(T, error)` or panic, and such
-- calls over a state.
pub mod Exec
pub mod Show
pub mod Time
use Prim.Native.String.{◌++◌}
use sensor_edge.Prelude.{◌≢◌, refl, ◌≡◌, String, Bool, Option, none, some}

-- An error value: io.EOF, a net.Error with its Temporary() flag and its text, errors.New(text), and
-- fmt.Errorf("text: %v", cause).
pub data Error : Type 0 where
  eof : Error
  net_error : (temporary : Bool) → String → Error
  msg : String → Error
  wrap : String → Error → Error

-- `(T, error)` where the call may also panic. A call that returns an error returns no value.
pub data Outcome {ℓ} (A : Type ℓ) : Type ℓ where
  ok : A → Outcome A
  err : Error → Outcome A
  panic : Outcome A

infixl 5 ◌>>=◌
abbrev pub ◌>>=◌ {ℓ κ} : {A : Type ℓ} {B : Type κ} → Outcome A → (A → Outcome B) → Outcome B
ok a >>= f = f a
err e >>= f = err e
panic >>= f = panic

-- Inversion of a successful bind, for proofs where the parts stay shut.
pub >>=-eq-ok {ℓ κ} :
    {A : Type ℓ} {B : Type κ} (r : Outcome A) (next : A → Outcome B) {last : B}
    → (r >>= next) ≡ ok last
    → (x : A) × (r ≡ ok x) × (next x ≡ ok last)
>>=-eq-ok panic next e = cc
>>=-eq-ok (err _) next e = cc
>>=-eq-ok (ok x) next e = (x, refl, e)

pub >>=-ne-panic {ℓ κ} :
    {A : Type ℓ} {B : Type κ} (m : Outcome A) (f : A → Outcome B)
    → m ≢ panic
    → ((a : A) → f a ≢ panic)
    → (m >>= f) ≢ panic
>>=-ne-panic (ok a) f n k = k a
>>=-ne-panic (err e) f n k = λ h. cc
>>=-ne-panic panic f n k = absurd (n refl)

pub ok-injective {ℓ} : {A : Type ℓ} (a b : A) → ok a ≡ ok b → a ≡ b
ok-injective a b h = cc

-- The part of an outcome that the caller's `err` holds.
abbrev pub error_of {ℓ} : {A : Type ℓ} → Outcome A → Option Error
error_of (err e) = some e
error_of _ = none

-- err.Error()
unfoldable pub text : Error → String
text eof = "EOF"
text (net_error temporary s) = s
text (msg s) = s
text (wrap s e) = s ++ ": " ++ text e

-- `if err != nil { return fmt.Errorf("s: %v", err) }`
abbrev pub failing {ℓ} : {A : Type ℓ} → String → Outcome A → Outcome A
failing s (ok a) = ok a
failing s (err e) = err (wrap s e)
failing s panic = panic

pub failing-eq-ok {ℓ} :
    {A : Type ℓ} (s : String) (r : Outcome A) {a : A} → failing s r ≡ ok a → r ≡ ok a
failing-eq-ok s (ok a) h = h
failing-eq-ok s (err e) h = cc
failing-eq-ok s panic h = cc
