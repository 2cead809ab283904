-- ===== src/Bloom/Bits.antt =====
-- bloom.cpp: what setting a bit of the array does to this bit and to the others.
use ambar.Prelude.{
  ℕ, zero, suc, ◌/◌, ◌%◌, ◌<◌, bit_and, bit_or, ◌<<<◌, u8, Bool, true, [], ◌∷◌, Bytes, AreBytes,
  length, set, get_or, ◌==◌, not, if◌then◌else◌, arith, ◌≡◌, ◌≢◌, refl, each_below, each_below-at,
  length-set, Bool-cases, inl, inr, ap, sym, ==_iff,
}
use ambar.Encoding.{byte_at}
use ambar.Bloom.{set_bit, bit_is_set}

-- A bit that is set is there, and no other is lost.
own_bit_table :
    each_below 256 (λ x. each_below 8 (λ i. not (bit_and (u8 (bit_or x (1 <<< i))) (1 <<< i) == 0)))
    ≡ true
unfolding each_below
own_bit_table = refl

keeps_bit : ℕ → ℕ → ℕ → Bool
keeps_bit x i j =
    if bit_and x (1 <<< j) == 0
    then true
    else not (bit_and (u8 (bit_or x (1 <<< i))) (1 <<< j) == 0)

other_bit_table : each_below 256 (λ x. each_below 8 (λ i. each_below 8 (keeps_bit x i))) ≡ true
unfolding each_below keeps_bit
other_bit_table = refl

own_bit :
    (x i : ℕ) → x < 256 → i < 8 → not (bit_and (u8 (bit_or x (1 <<< i))) (1 <<< i) == 0) ≡ true
own_bit x i hx hi = each_below-at 8 _ i (each_below-at 256 _ x own_bit_table hx) hi

other_bit :
    (x i j : ℕ)
    → x < 256
    → i < 8
    → j < 8
    → not (bit_and x (1 <<< j) == 0) ≡ true
    → not (bit_and (u8 (bit_or x (1 <<< i))) (1 <<< j) == 0) ≡ true
other_bit x i j hx hi hj h =
    let kept : keeps_bit x i j ≡ true =
      each_below-at 8 _ j (each_below-at 8 _ i (each_below-at 256 _ x other_bit_table hx) hi) hj in
    unfold keeps_bit in ground (arith, kept, h)

get_or-set_same : (xs : Bytes) (i v : ℕ) → i < length xs → get_or (set xs i v) i 0 ≡ v
get_or-set_same [] i v h = absurd (omega arith)
get_or-set_same (x ∷ xs) zero v h = refl
get_or-set_same (x ∷ xs) (suc i) v h = get_or-set_same xs i v (omega arith)

get_or-set_other : (xs : Bytes) (i j v : ℕ) → i ≢ j → get_or (set xs i v) j 0 ≡ get_or xs j 0
get_or-set_other [] i j v h = refl
get_or-set_other (x ∷ xs) zero zero v h = absurd (h refl)
get_or-set_other (x ∷ xs) zero (suc j) v h = refl
get_or-set_other (x ∷ xs) (suc i) zero v h = refl
get_or-set_other (x ∷ xs) (suc i) (suc j) v h = get_or-set_other xs i j v (λ e. h (ap suc e))

AreBytes-set : (xs : Bytes) (i v : ℕ) → AreBytes xs → v < 256 → AreBytes (set xs i v)
AreBytes-set [] i v h hv = h
AreBytes-set (x ∷ xs) zero v h hv = (hv, h.1)
AreBytes-set (x ∷ xs) (suc i) v h hv = (h.0, AreBytes-set xs i v h.1 hv)

byte_at-lt : (xs : Bytes) (i : ℕ) → AreBytes xs → byte_at xs i < 256
byte_at-lt [] i h = omega arith
byte_at-lt (x ∷ xs) zero h = h.0
byte_at-lt (x ∷ xs) (suc i) h = byte_at-lt xs i h.1

pub set_bit-AreBytes : (a : Bytes) (p : ℕ) → AreBytes a → AreBytes (set_bit a p)
unfolding set_bit
set_bit-AreBytes a p h = AreBytes-set a (p / 8) _ h (omega arith)

pub length-set_bit : (a : Bytes) (p : ℕ) → length (set_bit a p) ≡ length a
unfolding set_bit
length-set_bit a p = length-set a (p / 8) _

pub set_bit-sets :
    (a : Bytes) (p : ℕ) → AreBytes a → p / 8 < length a → bit_is_set (set_bit a p) p ≡ true
unfolding set_bit bit_is_set
set_bit-sets a p h small =
    rw (get_or-set_same a (p / 8) (u8 (bit_or (byte_at a (p / 8)) (1 <<< (p % 8)))) small)
      (own_bit (byte_at a (p / 8)) (p % 8) (byte_at-lt a (p / 8) h) (omega arith))

pub set_bit-keeps :
    (a : Bytes) (p q : ℕ)
    → AreBytes a
    → p / 8 < length a
    → bit_is_set a q ≡ true
    → bit_is_set (set_bit a p) q ≡ true
unfolding set_bit bit_is_set
set_bit-keeps a p q h small was = elim (Bool-cases (p / 8 == q / 8)) [
  | inl e ↦
      let same = (==_iff _ _).0 e in
      rw (← same, get_or-set_same a (p / 8) (u8 (bit_or (byte_at a (p / 8)) (1 <<< (p % 8)))) small)
        (other_bit (byte_at a (p / 8)) (p % 8) (q % 8) (byte_at-lt a (p / 8) h) (omega arith)
          (omega arith) (rw (sym same) at was))
  | inr e ↦
      let elsewhere : p / 8 ≢ q / 8 =
        λ same. absurd (ground (arith, (==_iff (p / 8) (q / 8)).1 same)) in
      rw
        (get_or-set_other a (p / 8) (q / 8) (u8 (bit_or (byte_at a (p / 8)) (1 <<< (p % 8))))
          elsewhere)
        was
]
