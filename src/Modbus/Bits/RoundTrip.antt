-- ===== src/Modbus/Bits/RoundTrip.antt =====
-- What WriteMultipleCoils and WriteMultipleRegisters pack, the read loops unpack.
use sensor_edge.Go.{ok}
use Prim.Native.Nat.{bit_or}
use sensor_edge.Prelude.{
  [], ◌∷◌, length-replicate, get_elem?-get_or, get_or-replicate, ◌*◌, length-set, ◌≤◌, replicate,
  ◌+◌, ap, ◌∙◌, get_or-set_ne, get_or-set_self, ℕ_discrete, length, get_or, ◌≢◌, ◌%◌, set, ltb→lt,
  ◌/◌, List, ℕ, zero, suc, ◌^◌, ◌<◌, ◌≡◌, refl, Bool, true, false, ◌&&◌, ◌||◌, ◌==◌, arith, ltb,
}
use sensor_edge.Modbus.Bits.{at, bit_at, pack_from, pack_bits, unpack_bits, bit}

every_below : ℕ → (ℕ → Bool) → Bool
every_below zero test = true
every_below (suc limit) test = every_below limit test && test limit

every_below_at :
    (limit : ℕ) (test : ℕ → Bool) (k : ℕ)
    → every_below limit test ≡ true
    → k < limit
    → test k ≡ true
unfolding every_below
every_below_at zero test k all below = absurd (omega arith)
every_below_at (suc limit) test k all below = ground (arith, every_below_at limit test k)

bool_eq : Bool → Bool → Bool
bool_eq true b = b
bool_eq false true = false
bool_eq false false = true

bool_eq_sound : (a b : Bool) → bool_eq a b ≡ true → a ≡ b
unfolding bool_eq
bool_eq_sound a b h = ground arith

-- Setting bit k of a byte: the result is a byte, bit k is set, and the other bits are as before.
pair_ok : ℕ → ℕ → ℕ → Bool
unfolding bool_eq
pair_ok b k j = bool_eq (bit (bit_or b (2 ^ k)) j) (k == j || bit b j)

cell_ok : ℕ → ℕ → Bool
unfolding every_below pair_ok
cell_ok b k = ltb (bit_or b (2 ^ k)) 256 && every_below 8 (pair_ok b k)

byte_ok : ℕ → Bool
unfolding every_below cell_ok
byte_ok b = every_below 8 (cell_ok b)

bytes_ok : every_below 256 byte_ok ≡ true
unfolding byte_ok
bytes_ok = refl

cell_holds : (b k : ℕ) → b < 256 → k < 8 → cell_ok b k ≡ true
cell_holds b k hb hk =
    let row = every_below_at 256 byte_ok b bytes_ok hb in
    every_below_at 8 (cell_ok b) k (unfold byte_ok in row) hk

both : (a b : Bool) → (a && b) ≡ true → (a ≡ true) × (b ≡ true)
both a b h = ground arith

cell_parts :
    (b k : ℕ)
    → b < 256
    → k < 8
    → (ltb (bit_or b (2 ^ k)) 256 ≡ true) × (every_below 8 (pair_ok b k) ≡ true)
cell_parts b k hb hk =
    both (ltb (bit_or b (2 ^ k)) 256) (every_below 8 (pair_ok b k))
      (unfold cell_ok in cell_holds b k hb hk)

set_bit_small : (b k : ℕ) → b < 256 → k < 8 → bit_or b (2 ^ k) < 256
set_bit_small b k hb hk = ltb→lt (bit_or b (2 ^ k)) 256 (cell_parts b k hb hk).0

set_bit : (b k j : ℕ) → b < 256 → k < 8 → j < 8 → bit (bit_or b (2 ^ k)) j ≡ (k == j || bit b j)
set_bit b k j hb hk hj =
    bool_eq_sound (bit (bit_or b (2 ^ k)) j) (k == j || bit b j)
      (unfold pair_ok in every_below_at 8 (pair_ok b k) j (cell_parts b k hb hk).1 hj)

-- Coil j of a buffer.
abbrev coil : List ℕ → ℕ → Bool
coil buf j = bit (get_or buf (j / 8) 0) (j % 8)

AllBytes : List ℕ → Type 0
AllBytes buf = (i : ℕ) → get_or buf i 0 < 256

abbrev mark : ℕ → List ℕ → List ℕ
mark i buf = set buf (i / 8) (bit_or (get_or buf (i / 8) 0) (2 ^ (i % 8)))

mark-AllBytes : (i : ℕ) (buf : List ℕ) → i / 8 < length buf → AllBytes buf → AllBytes (mark i buf)
unfolding AllBytes
mark-AllBytes i buf fits small n = elim (ℕ_discrete (i / 8) n) [
  | yes e ↦
      rw (← e, get_or-set_self buf (i / 8) (bit_or (get_or buf (i / 8) 0) (2 ^ (i % 8))) 0 fits)
        (set_bit_small (get_or buf (i / 8) 0) (i % 8) (small (i / 8)) (omega arith))
  | no d ↦ rw (get_or-set_ne buf (i / 8) n _ 0 d) (small n)
]

same_index : (i j : ℕ) → i / 8 ≡ j / 8 → (i % 8 == j % 8) ≡ (i == j)
same_index i j h = ground arith

other_index : (i j : ℕ) → i / 8 ≢ j / 8 → (i == j) ≡ false
other_index i j h = ground arith

coil-mark :
    (i j : ℕ) (buf : List ℕ)
    → i / 8 < length buf
    → AllBytes buf
    → coil (mark i buf) j ≡ (i == j || coil buf j)
unfolding AllBytes
coil-mark i j buf fits small = elim (ℕ_discrete (i / 8) (j / 8)) [
  | yes e ↦
      rw (← e, get_or-set_self buf (i / 8) (bit_or (get_or buf (i / 8) 0) (2 ^ (i % 8))) 0 fits)
        (set_bit (get_or buf (i / 8) 0) (i % 8) (j % 8) (small (i / 8)) (omega arith) (omega arith)
          ∙ ap (λ t. t || bit (get_or buf (i / 8) 0) (j % 8)) (same_index i j e))
  | no d ↦ rw (get_or-set_ne buf (i / 8) (j / 8) _ 0 d, other_index i j d)
]

length-pack_from :
    (i : ℕ) (bs : List Bool) (buf : List ℕ) → length (pack_from i bs buf) ≡ length buf
unfolding pack_from
length-pack_from i [] buf = refl
length-pack_from i (true ∷ bs) buf =
    length-pack_from (i + 1) bs (mark i buf)
    ∙ length-set buf (i / 8) (bit_or (get_or buf (i / 8) 0) (2 ^ (i % 8)))
length-pack_from i (false ∷ bs) buf = length-pack_from (i + 1) bs buf

-- Coil j after packing from index i: as before, or marked by the value that stands for it.
marked : ℕ → List Bool → ℕ → Bool
marked i [] j = false
marked i (b ∷ bs) j = ((i == j) && b) || marked (i + 1) bs j

coil-pack_from :
    (i j : ℕ) (bs : List Bool) (buf : List ℕ)
    → i + length bs ≤ 8 * length buf
    → AllBytes buf
    → coil (pack_from i bs buf) j ≡ (coil buf j || marked i bs j)
unfolding pack_from marked
coil-pack_from i j [] buf fits small = ground arith
coil-pack_from i j (true ∷ bs) buf fits small =
    coil-pack_from (i + 1) j bs (mark i buf)
      (omega (arith, length-set buf (i / 8) (bit_or (get_or buf (i / 8) 0) (2 ^ (i % 8)))))
      (mark-AllBytes i buf (omega arith) small)
    ∙ ap (λ t. t || marked (i + 1) bs j) (coil-mark i j buf (omega arith) small)
    ∙ regroup (i == j) (coil buf j) (marked (i + 1) bs j)
  where
    regroup : (a b c : Bool) → ((a || b) || c) ≡ (b || ((a && true) || c))
    regroup a b c = ground arith
coil-pack_from i j (false ∷ bs) buf fits small =
    coil-pack_from (i + 1) j bs buf (omega arith) small
    ∙ regroup (i == j) (coil buf j) (marked (i + 1) bs j)
  where
    regroup : (a b c : Bool) → (b || c) ≡ (b || ((a && false) || c))
    regroup a b c = ground arith

marked_below : (i j : ℕ) (bs : List Bool) → j < i → marked i bs j ≡ false
unfolding marked
marked_below i j [] h = refl
marked_below i j (b ∷ bs) h = ground (arith, marked_below (i + 1) j bs)

marked-get_or : (i j : ℕ) (bs : List Bool) → marked i bs (i + j) ≡ get_or bs j false
unfolding marked
marked-get_or i j [] = refl
marked-get_or i zero (b ∷ bs) = ground (arith, marked_below (i + 1) (i + 0) bs)
marked-get_or i (suc j) (b ∷ bs) =
    ground (arith, ap (marked (i + 1) bs) (shift i j) ∙ marked-get_or (i + 1) j bs)
  where
    shift : (i j : ℕ) → i + suc j ≡ i + 1 + j
    shift i j = omega arith

at-get_or : (xs : List ℕ) (i : ℕ) → i < length xs → at xs i ≡ ok (get_or xs i 0)
at-get_or xs i h = rw (get_elem?-get_or xs i 0 h, at)

bit_at-coil : (buf : List ℕ) (i : ℕ) → i < 8 * length buf → bit_at buf i ≡ ok (coil buf i)
unfolding bit_at
bit_at-coil buf i h = rw (at-get_or buf (i / 8) (omega arith))

-- If `bs` are the coils i, i + 1, … of a buffer that holds them all, the read loop returns `bs`.
pub unpack_bits-coil :
    (buf : List ℕ) (i : ℕ) (bs : List Bool)
    → ((j : ℕ) → j < length bs → coil buf (i + j) ≡ get_or bs j false)
    → i + length bs ≤ 8 * length buf
    → unpack_bits buf i (length bs) ≡ ok bs
unfolding unpack_bits
unpack_bits-coil buf i [] same fits = refl
unpack_bits-coil buf i (b ∷ bs) same fits = rw (
  bit_at-coil buf i (omega arith) ∙ ap ok (ap (coil buf) (omega arith) ∙ same 0 (omega arith)),
  unpack_bits-coil buf (i + 1) bs (λ j h. ap (coil buf) (omega arith) ∙ same (suc j) (omega arith))
      (omega arith),
)

zeros-AllBytes : (n : ℕ) → AllBytes (replicate n 0)
unfolding AllBytes
zeros-AllBytes n i = omega (arith, get_or-replicate {A = ℕ} n i 0)

coil_zero : (i : ℕ) → bit 0 i ≡ false
coil_zero i = ground (arith, zero_div i)
  where
    zero_div : (i : ℕ) → 0 / 2 ^ i ≡ 0
    zero_div i = omega arith

coil-pack_bits :
    (values : List Bool) (j : ℕ) → coil (pack_bits values) (0 + j) ≡ get_or values j false
unfolding pack_bits
coil-pack_bits values j =
    let zeros : List ℕ = replicate ((length values + 7) / 8) 0 in
    let fits = length-replicate {A = ℕ} ((length values + 7) / 8) 0 in
    coil-pack_from 0 (0 + j) values zeros (omega arith) (zeros-AllBytes _)
    ∙ ap (λ t. t || marked 0 values (0 + j))
        (ap (λ b. bit b ((0 + j) % 8)) (get_or-replicate {A = ℕ} _ ((0 + j) / 8) 0)
          ∙ coil_zero ((0 + j) % 8))
    ∙ marked-get_or 0 j values

pack_bits_holds : (values : List Bool) → length values ≤ 8 * length (pack_bits values)
unfolding pack_bits
pack_bits_holds values =
    let zeros : List ℕ = replicate ((length values + 7) / 8) 0 in
    let fits = length-replicate {A = ℕ} ((length values + 7) / 8) 0 in
    omega (arith, length-pack_from 0 values zeros)

-- One coil of the packed ones.
pub bit_at-pack_bits :
    (values : List Bool) (j : ℕ)
    → j < length values
    → bit_at (pack_bits values) j ≡ ok (get_or values j false)
bit_at-pack_bits values j h =
    bit_at-coil (pack_bits values) j (omega (arith, pack_bits_holds values))
    ∙ ap ok
        (ap (coil (pack_bits values)) {x = j} {y = 0 + j} (omega arith) ∙ coil-pack_bits values j)

-- Coils that WriteMultipleCoils packs are the coils that ReadCoils and ReadDiscreteInputs unpack.
pub unpack_bits-pack_bits :
    (values : List Bool) → unpack_bits (pack_bits values) 0 (length values) ≡ ok values
unpack_bits-pack_bits values =
    unpack_bits-coil (pack_bits values) 0 values (λ j h. coil-pack_bits values j)
      (omega (arith, pack_bits_holds values))
