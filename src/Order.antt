-- ===== src/Order.antt =====
-- std::string_view::compare, which every order of the engine rests on: strings in the order of the
-- first byte that differs, each byte unsigned, and a prefix before what it begins.
use Prim.Native.Nat.{compare, Ordering, lt, eq, gt}
use ambar.Prelude.{◌≡◌, refl, arith, [], ◌∷◌, Bytes}

unfoldable pub compare_bytes : Bytes → Bytes → Ordering
compare_bytes [] [] = eq
compare_bytes [] (y ∷ ys) = lt
compare_bytes (x ∷ xs) [] = gt
compare_bytes (x ∷ xs) (y ∷ ys) = elim (compare x y) [
  | lt ↦ lt
  | eq ↦ compare_bytes xs ys
  | gt ↦ gt
]

abbrev pub flip_ordering : Ordering → Ordering
flip_ordering lt = gt
flip_ordering eq = eq
flip_ordering gt = lt

pub compare_bytes_refl : (xs : Bytes) → compare_bytes xs xs ≡ eq
unfolding compare_bytes
compare_bytes_refl [] = refl
compare_bytes_refl (x ∷ xs) = ground (arith, compare_bytes_refl xs)

pub compare_bytes_flip : (xs ys : Bytes) → compare_bytes ys xs ≡ flip_ordering (compare_bytes xs ys)
unfolding compare_bytes
compare_bytes_flip [] [] = refl
compare_bytes_flip [] (y ∷ ys) = refl
compare_bytes_flip (x ∷ xs) [] = refl
compare_bytes_flip (x ∷ xs) (y ∷ ys) = ground (arith, compare_bytes_flip xs ys)

pub compare_bytes-eq : (xs ys : Bytes) → compare_bytes xs ys ≡ eq → xs ≡ ys
unfolding compare_bytes
compare_bytes-eq [] [] e = refl
compare_bytes-eq [] (y ∷ ys) e = cc
compare_bytes-eq (x ∷ xs) [] e = cc
compare_bytes-eq (x ∷ xs) (y ∷ ys) e = ground (arith, compare_bytes-eq xs ys)

pub compare_bytes_trans :
    (xs ys zs : Bytes)
    → compare_bytes xs ys ≡ lt
    → compare_bytes ys zs ≡ lt
    → compare_bytes xs zs ≡ lt
unfolding compare_bytes
compare_bytes_trans [] [] zs p q = cc
compare_bytes_trans [] (y ∷ ys) [] p q = cc
compare_bytes_trans [] (y ∷ ys) (z ∷ zs) p q = refl
compare_bytes_trans (x ∷ xs) [] zs p q = cc
compare_bytes_trans (x ∷ xs) (y ∷ ys) [] p q = cc
compare_bytes_trans (x ∷ xs) (y ∷ ys) (z ∷ zs) p q = ground (arith, compare_bytes_trans xs ys zs)
