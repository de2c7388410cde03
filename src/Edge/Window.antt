-- ===== src/Edge/Window.antt =====
-- The sliding window of types/edge_rule.go.
use sensor_edge.Prelude.Int.{ltb_ℤ}
use sensor_edge.Prelude.{
  false, ◌∙◌, true, dec_le, ap, length-append, ◌+◌, sym, refl, arith, zero, [], suc, ◌-◌, pos, drop,
  ◌++◌, ◌∷◌, ◌≤◌, length, ◌≡◌, ℕ, List,
}
use mathlib.Core.List.{append_assoc, append-nil}
use sensor_edge.Edge.{PointBuffer, add, tail}

-- Values added one after the other, oldest first.
pub add_all : PointBuffer → List ℕ → PointBuffer
add_all b [] = b
add_all b (v ∷ vs) = add_all (add b v) vs

-- The last n values of a list.
abbrev pub last_of : ℕ → List ℕ → List ℕ
last_of n vs = drop (length vs - n) vs

drop-tail : (n : ℕ) (xs : List ℕ) → drop (suc n) xs ≡ tail (drop n xs)
drop-tail zero [] = refl
drop-tail zero (x ∷ xs) = refl
drop-tail (suc n) [] = refl
drop-tail (suc n) (x ∷ xs) = drop-tail n xs

drop-append : (n : ℕ) (xs ys : List ℕ) → n ≤ length xs → drop n (xs ++ ys) ≡ drop n xs ++ ys
drop-append zero xs ys h = refl
drop-append (suc n) [] ys h = absurd (omega arith)
drop-append (suc n) (x ∷ xs) ys h = drop-append n xs ys (omega arith)

length-drop : (n : ℕ) (xs : List ℕ) → length (drop n xs) ≡ length xs - n
length-drop zero xs = omega arith
length-drop (suc n) [] = omega arith
length-drop (suc n) (x ∷ xs) = omega (arith, length-drop n xs)

-- After `seen`, the buffer holds the last n values of it.
abbrev Shows : ℕ → List ℕ → PointBuffer → Type 0
Shows n seen b = (b.size ≡ pos n) × (b.values ≡ last_of n seen)

add-Shows :
    (n v : ℕ) (seen : List ℕ) (b : PointBuffer)
    → Shows n seen b
    → Shows n (seen ++ v ∷ []) (add b v)
unfolding add
add-Shows n v seen b (size, held) =
    let grown : b.values ++ v ∷ [] ≡ drop (length seen - n) (seen ++ v ∷ []) =
      rw held (sym (drop-append (length seen - n) seen (v ∷ []) (omega arith))) in
    let long : length (b.values ++ v ∷ []) ≡ length seen - (length seen - n) + 1 = omega (
      arith,
      length-append b.values (v ∷ []),
      ap length held,
      length-drop (length seen - n) seen,
    ) in
    let total = length-append seen (v ∷ []) in
    (
      size,
      elim (dec_le n (length seen)) [
        | yes le ↦
            let full : ltb_ℤ b.size (pos (length (b.values ++ v ∷ []))) ≡ true =
              rw size (ground (arith, long)) in
            rw full (
              ap tail grown
              ∙ sym (drop-tail (length seen - n) (seen ++ v ∷ []))
              ∙ ap (λ k. drop k (seen ++ v ∷ [])) {x = suc (length seen - n)}
                  {y = length (seen ++ v ∷ []) - n} (omega (arith, total)))
        | no gt ↦
            let room : ltb_ℤ b.size (pos (length (b.values ++ v ∷ []))) ≡ false =
              rw size (ground (arith, long)) in
            rw room (
              grown
              ∙ ap (λ k. drop k (seen ++ v ∷ [])) {x = length seen - n}
                  {y = length (seen ++ v ∷ []) - n} (omega (arith, total)))
      ],
    )

add_all-Shows :
    (n : ℕ) (vs seen : List ℕ) (b : PointBuffer)
    → Shows n seen b
    → Shows n (seen ++ vs) (add_all b vs)
unfolding add_all
add_all-Shows n [] seen b h = rw append-nil h
add_all-Shows n (v ∷ vs) seen b h =
    rw (sym (append_assoc seen (v ∷ []) vs))
      (add_all-Shows n vs (seen ++ v ∷ []) (add b v) (add-Shows n v seen b h))

-- A window of size n, after any values were added to the empty buffer, holds the last n of them, in
-- order, and all of them as long as there are no more than n; so it never holds more than n.
pub add_all-last_of :
    (n : ℕ) (vs : List ℕ)
    → let b = add_all (record { values = []; size = pos n }) vs in
      (b.values ≡ last_of n vs) × (length b.values ≤ n)
add_all-last_of n vs =
    let (size, held) =
      add_all-Shows n vs [] (record { values = []; size = pos n }) (refl, no_values (0 - n)) in
    (held, omega (arith, ap length held, length-drop (length vs - n) vs))
  where
    no_values : (k : ℕ) → ◌≡◌ {A = List ℕ} [] (drop k [])
    no_values zero = refl
    no_values (suc k) = refl
