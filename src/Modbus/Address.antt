-- ===== src/Modbus/Address.antt =====
-- parseAddress of protocols/modbus/modbus_tcp.go, with fmt.Sscanf(point, "%d", &addr).
use Prim.Native.String
use sensor_edge.Prelude.{
  inr, inl, Bool-cases, ◌≢◌, ℕ, ℤ, pos, negsuc, ◌+◌, ◌*◌, ◌-◌, ◌^◌, ◌≤◌, ◌<◌, ◌≡◌, refl, ap, String,
  Bool, true, false, ◌&&◌, ◌||◌, List, [], ◌∷◌, ◌++◌, map, arith, ltb, leb, ◌==◌, if◌then◌else◌,
}
use sensor_edge.Prelude.Int.{minus, to_unsigned}
use sensor_edge.Prelude.Text.{codes}
use sensor_edge.Go.{>>=-ne-panic, panic, Outcome, ok, err, msg, ◌>>=◌}

abbrev pub is_digit : ℕ → Bool
is_digit c = leb b'0' c && leb c b'9'

-- The white space of fmt, without the line feed.
is_space : ℕ → Bool
is_space c =
    c == 0x20
    || c == 0x09
    || c == 0x0b
    || c == 0x0c
    || c == 0x0d
    || c == 0x85
    || c == 0xa0
    || c == 0x1680
    || (leb 0x2000 c && leb c 0x200a)
    || c == 0x2028
    || c == 0x2029
    || c == 0x202f
    || c == 0x205f
    || c == 0x3000

-- SkipSpace: a line feed in front of the number is an error.
skip_space : List ℕ → Outcome (List ℕ)
unfolding is_space
skip_space [] = ok []
skip_space (c ∷ s) =
    let rest = skip_space s in
    if c == 0x0a then err (msg "unexpected newline") else if is_space c then rest else ok (c ∷ s)

-- The digits in front, as a number; what follows them is not read.
pub digits_from : ℕ → List ℕ → ℕ
digits_from acc [] = acc
digits_from acc (c ∷ s) =
    let rest = digits_from (acc * 10 + (c - b'0')) s in if is_digit c then rest else acc

-- strconv.ParseInt of a sign and digits, as a 64-bit int.
ranged : Bool → ℕ → Outcome ℤ
ranged false n = if ltb n (2 ^ 63) then ok (pos n) else err (msg "value out of range")
ranged true n =
    if n == 0
    then ok (pos 0)
    else if leb n (2 ^ 63)
    then ok (negsuc (n - 1))
    else err (msg "value out of range")

unsigned_part : Bool → List ℕ → Outcome ℤ
unfolding ranged digits_from
unsigned_part negative [] = err (msg "unexpected EOF")
unsigned_part negative (c ∷ s) =
    if is_digit c then ranged negative (digits_from 0 (c ∷ s)) else err (msg "expected integer")

signed_part : List ℕ → Outcome ℤ
unfolding unsigned_part
signed_part [] = err (msg "unexpected EOF")
signed_part (c ∷ s) =
    if c == b'-'
    then unsigned_part true s
    else if c == b'+'
    then unsigned_part false s
    else unsigned_part false (c ∷ s)

unfoldable pub sscanf_d : List ℕ → Outcome ℤ
unfolding skip_space signed_part
sscanf_d s = do t ← skip_space s; signed_part t

abbrev base_of : List ℕ → ℕ
base_of [] = 1
base_of (c ∷ s) = if c == b'4' then 40001 else 1

unfoldable pub parse_address : String → Outcome ℕ
parse_address point = if ltb (String.len point) 2 then err (msg "invalid point address") else do
  addr ← sscanf_d (codes point)
  ok (to_unsigned (2 ^ 16) (minus addr (base_of (codes point))))

-- The number that decimal digits spell, after `acc`.
abbrev pub decimal : ℕ → List ℕ → ℕ
decimal acc [] = acc
decimal acc (d ∷ ds) = decimal (acc * 10 + d) ds

abbrev pub AllDigits : List ℕ → Type 0
AllDigits [] = Unit
AllDigits (d ∷ ds) = (d < 10) × AllDigits ds

-- The text goes on with no digit.
abbrev pub ends_number : List ℕ → Bool
ends_number [] = true
ends_number (c ∷ s) = if is_digit c then false else true

abbrev pub digit_codes : List ℕ → List ℕ
digit_codes = map (λ d. d + b'0')

digits_from-decimal :
    (acc : ℕ) (ds rest : List ℕ)
    → AllDigits ds
    → ends_number rest ≡ true
    → digits_from acc (digit_codes ds ++ rest) ≡ decimal acc ds
unfolding digits_from
digits_from-decimal acc [] [] h e = refl
digits_from-decimal acc [] (c ∷ s) h e = ground arith
digits_from-decimal acc (d ∷ ds) rest h e =
    ground (arith, digits_from-decimal (acc * 10 + d) ds rest h.1 e)

sscanf_d-decimal :
    (d : ℕ) (ds rest : List ℕ)
    → AllDigits (d ∷ ds)
    → ends_number rest ≡ true
    → decimal 0 (d ∷ ds) < 2 ^ 63
    → sscanf_d (digit_codes (d ∷ ds) ++ rest) ≡ ok (pos (decimal 0 (d ∷ ds)))
unfolding sscanf_d
sscanf_d-decimal d ds rest h e small = ground (arith, digits_from-decimal 0 (d ∷ ds) rest h e)

base_of-decimal :
    (d : ℕ) (ds rest : List ℕ)
    → base_of (digit_codes (d ∷ ds) ++ rest) ≡ (if d == 4 then 40001 else 1)
base_of-decimal d ds rest = ground arith

long_enough : (n : ℕ) → 2 ≤ n → ltb n 2 ≡ false
long_enough n h = ground arith

-- A point of two characters or more that begins with decimal digits below 2 ^ 63, whatever follows
-- them, has the address that the digits spell, less 40001 if the first digit is 4 and less 1
-- otherwise, in 16 bits with wrap-around: neither the length nor the range of the number is checked.
pub parse_address-decimal :
    (point : String) (d : ℕ) (ds rest : List ℕ)
    → codes point ≡ digit_codes (d ∷ ds) ++ rest
    → 2 ≤ String.len point
    → AllDigits (d ∷ ds)
    → ends_number rest ≡ true
    → decimal 0 (d ∷ ds) < 2 ^ 63
    → parse_address point
      ≡ ok (to_unsigned (2 ^ 16) (minus (pos (decimal 0 (d ∷ ds))) (if d == 4 then 40001 else 1)))
unfolding parse_address
parse_address-decimal point d ds rest shape long h e small =
    rw (long_enough (String.len point) long, shape, sscanf_d-decimal d ds rest h e small)
      (ap (λ b. ok (to_unsigned (2 ^ 16) (minus (pos (decimal 0 (d ∷ ds))) b)))
        (base_of-decimal d ds rest))

registers_in_range : parse_address "40010" ≡ ok 9
unfolding parse_address sscanf_d
registers_in_range = refl

six_digits_wrap : parse_address "465537" ≡ parse_address "400001"
unfolding parse_address sscanf_d
six_digits_wrap = refl

-- An address that parses is a uint16.
pub parse_address-lt : (point : String) (a : ℕ) → parse_address point ≡ ok a → a < 2 ^ 16
unfolding parse_address
parse_address-lt point a e = ground arith

skip_space-ne-panic : (s : List ℕ) → skip_space s ≢ panic
unfolding skip_space
skip_space-ne-panic [] = λ e. cc
skip_space-ne-panic (c ∷ s) = ground (arith, skip_space-ne-panic s)

signed_part-ne-panic : (s : List ℕ) → signed_part s ≢ panic
unfolding signed_part
signed_part-ne-panic [] = λ e. cc
signed_part-ne-panic (c ∷ s) = ground arith

pub parse_address-ne-panic : (point : String) → parse_address point ≢ panic
unfolding parse_address sscanf_d
parse_address-ne-panic point = elim (Bool-cases (ltb (String.len point) 2)) [
  | inl e ↦ rw e (λ h. cc)
  | inr e ↦ rw e (
      >>=-ne-panic (sscanf_d (codes point)) _
        (>>=-ne-panic (skip_space (codes point)) signed_part (skip_space-ne-panic (codes point))
          signed_part-ne-panic)
        (λ a h. cc))
]
