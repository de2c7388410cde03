-- ===== src/Modbus/Batch/Sort.antt =====
-- The order in which a batch reads its points.
use sensor_edge.Prelude.{
  leb→le, inr, inl, leb, suc, refl, [], ◌≡◌, ◌^◌, arith, Bool-cases, ◌+◌, length, ◌∷◌, ◌≤◌, List, ℕ,
}
use sensor_edge.Modbus.Points.{AddrPoint, sort_points, place}
use mathlib.Core.List.Perm
use mathlib.Core.List.{Perm}

module _ (P : AddrPoint → Type 0) where
  abbrev pub All : List AddrPoint → Type 0
  All [] = Unit
  All (p ∷ ps) = P p × All ps

-- The addresses do not fall, and `need` registers from each address on lie within the 65536 ones.
abbrev pub Fits : (AddrPoint → ℕ) → List AddrPoint → Type 0
Fits need [] = Unit
Fits need (p ∷ ps) = (p.addr + need p ≤ 2 ^ 16) × (All (λ q. p.addr ≤ q.addr) ps) × (Fits need ps)

pub All-place :
    (P : AddrPoint → Type 0) (p : AddrPoint) (ps : List AddrPoint)
    → P p
    → All P ps
    → All P (place p ps)
unfolding place
All-place P p [] h a = (h, tt)
All-place P p (q ∷ qs) h a = elim (Bool-cases (leb p.addr q.addr)) [
  | inl e ↦ rw e (h, a)
  | inr e ↦ rw e (a.0, All-place P p qs h a.1)
]

All-le_trans :
    (a b : ℕ) (ps : List AddrPoint) → a ≤ b → All (λ q. b ≤ q.addr) ps → All (λ q. a ≤ q.addr) ps
All-le_trans a b [] h all = tt
All-le_trans a b (p ∷ ps) h all = (omega arith, All-le_trans a b ps h all.1)

module _ (need : AddrPoint → ℕ) where
  place-Fits :
      (p : AddrPoint) (ps : List AddrPoint)
      → p.addr + need p ≤ 2 ^ 16
      → Fits need ps
      → Fits need (place p ps)
  unfolding place
  place-Fits p [] h f = (h, tt, tt)
  place-Fits p (q ∷ qs) h f = elim (Bool-cases (leb p.addr q.addr)) [
    | inl e ↦
        let le : p.addr ≤ q.addr = leb→le p.addr q.addr e in
        rw e (h, (le, All-le_trans p.addr q.addr qs le f.1), f)
    | inr e ↦
        rw e (f.0, All-place (λ r. q.addr ≤ r.addr) p qs (ground arith) f.1, place-Fits p qs h f.2)
  ]

  -- A sorted batch of points that lie within the registers fits.
  pub sort_points-Fits :
      (ps : List AddrPoint) → All (λ p. p.addr + need p ≤ 2 ^ 16) ps → Fits need (sort_points ps)
  unfolding sort_points
  sort_points-Fits [] a = tt
  sort_points-Fits (p ∷ ps) a = place-Fits p (sort_points ps) a.0 (sort_points-Fits ps a.1)

place-perm : (p : AddrPoint) (ps : List AddrPoint) → Perm (place p ps) (p ∷ ps)
unfolding place
place-perm p [] = Perm.refl (p ∷ [])
place-perm p (q ∷ qs) = elim (Bool-cases (leb p.addr q.addr)) [
  | inl e ↦ rw e (Perm.refl (p ∷ q ∷ qs))
  | inr e ↦ rw e (Perm.trans (Perm.cons q (place-perm p qs)) (Perm.swap p q qs))
]

-- No point is lost or read twice by the sort.
pub sort_points-perm : (ps : List AddrPoint) → Perm (sort_points ps) ps
unfolding sort_points
sort_points-perm [] = Perm.refl []
sort_points-perm (p ∷ ps) =
    Perm.trans (place-perm p (sort_points ps)) (Perm.cons p (sort_points-perm ps))

length-place : (p : AddrPoint) (ps : List AddrPoint) → length (place p ps) ≡ suc (length ps)
unfolding place
length-place p [] = refl
length-place p (q ∷ qs) = ground (arith, length-place p qs)

pub length-sort_points : (ps : List AddrPoint) → length (sort_points ps) ≡ length ps
unfolding sort_points
length-sort_points [] = refl
length-sort_points (p ∷ ps) = omega (arith, length-place p (sort_points ps), length-sort_points ps)
