-- ===== src/FileName/Numbers.antt =====
-- filename.cpp: a number that was printed is parsed again.
use native.Mathlib.Nat.{pow-suc}
use ambar.Prelude.{
  ℕ, zero, suc, ◌+◌, ◌-◌, ◌*◌, ◌/◌, ◌%◌, ◌^◌, ◌≤◌, ◌<◌, false, some, [], ◌∷◌, ◌++◌, Bytes, length,
  length-append, length-replicate, replicate, All, All-append, ltb, le→ltb, ◌==◌, Bool-cases, inl,
  inr, arith, ◌≡◌, refl, ap, ◌∙◌,
}
use ambar.FileName.{parse_digits, parse_number, print_digits, print_number}

abbrev pub IsDigit : ℕ → Type 0
IsDigit c = (48 ≤ c) × (c ≤ 57)

parse_digits-append :
    (xs ys : Bytes) (r v : ℕ)
    → parse_digits xs r ≡ some v
    → parse_digits (xs ++ ys) r ≡ parse_digits ys v
unfolding parse_digits
parse_digits-append [] ys r v e = ground arith
parse_digits-append (x ∷ xs) ys r v e =
    ground (arith, parse_digits-append xs ys (r * 10 + (x - 48)) v)

-- A digit behind a number that stays within 64 bits.
parse_digit :
    (d v : ℕ) → d < 10 → v * 10 + d < 2 ^ 64 → parse_digits ((48 + d) ∷ []) v ≡ some (v * 10 + d)
unfolding parse_digits
parse_digit d v small fits = ground arith

parse-print_digits :
    (digits n : ℕ) → n < 10 ^ digits → n < 2 ^ 64 → parse_digits (print_digits digits n) 0 ≡ some n
unfolding print_digits
parse-print_digits zero n few fits = empty (omega arith)
  where
    empty : {n : ℕ} → 0 ≡ n → parse_digits [] 0 ≡ some n
    empty e = unfold parse_digits in ap some e
parse-print_digits (suc digits) n few fits = elim (Bool-cases (ltb n 10)) [
  | inl small ↦ rw small (parse_digit n 0 (ground arith) (omega arith) ∙ ap some (omega arith))
  | inr large ↦
      let front =
        parse-print_digits digits (n / 10) (omega (arith, pow-suc 10 digits)) (omega arith) in
      rw large (
        parse_digits-append (print_digits digits (n / 10)) ((48 + n % 10) ∷ []) 0 (n / 10) front
        ∙ parse_digit (n % 10) (n / 10) (omega arith) (omega arith)
        ∙ ap some (omega arith))
]

print_digits-IsDigit : (digits n : ℕ) → All IsDigit (print_digits digits n)
unfolding print_digits
print_digits-IsDigit zero n = tt
print_digits-IsDigit (suc digits) n = elim (Bool-cases (ltb n 10)) [
  | inl small ↦ rw small ((omega arith, ground arith), tt)
  | inr large ↦ rw large (
      All-append IsDigit (print_digits digits (n / 10)) ((48 + n % 10) ∷ [])
        (print_digits-IsDigit digits (n / 10)) ((omega arith, omega arith), tt))
]

length-print_digits : (digits n : ℕ) → length (print_digits digits n) ≤ digits
unfolding print_digits
length-print_digits zero n = omega arith
length-print_digits (suc digits) n = ground (
  arith,
  length-print_digits digits (n / 10),
  length-append (print_digits digits (n / 10)) ((48 + n % 10) ∷ []),
)

zeros-IsDigit : (k : ℕ) → All IsDigit (replicate k 48)
zeros-IsDigit zero = tt
zeros-IsDigit (suc k) = ((omega arith, omega arith), zeros-IsDigit k)

pub print_number-IsDigit : (n : ℕ) → All IsDigit (print_number n)
unfolding print_number
print_number-IsDigit n =
    let digits = print_digits 20 n in
    All-append IsDigit (replicate (6 - length digits) 48) digits (zeros-IsDigit (6 - length digits))
      (print_digits-IsDigit 20 n)

pub length-print_number : (n : ℕ) → (6 ≤ length (print_number n)) × (length (print_number n) ≤ 20)
unfolding print_number
length-print_number n =
    let digits = print_digits 20 n in
    omega (
      arith,
      length-print_digits 20 n,
      length-append (replicate (6 - length digits) 48) digits,
      length-replicate {A = ℕ} (6 - length digits) 48,
    )

parse_zeros : (k : ℕ) (xs : Bytes) → parse_digits (replicate k 48 ++ xs) 0 ≡ parse_digits xs 0
unfolding parse_digits
parse_zeros zero xs = refl
parse_zeros (suc k) xs = parse_zeros k xs

-- A number of 64 bits that is printed is parsed again.
pub parse-print_number : (n : ℕ) → n < 2 ^ 64 → parse_number (print_number n) ≡ some n
unfolding parse_number
parse-print_number n fits =
    let (long, short) = length-print_number n in
    let nonempty : (length (print_number n) == 0) ≡ false = ground arith in
    let enough : ltb 20 (length (print_number n)) ≡ false = le→ltb _ _ short in
    let value : parse_digits (print_number n) 0 ≡ some n =
      unfold print_number in
      parse_zeros (6 - length (print_digits 20 n)) (print_digits 20 n)
      ∙ parse-print_digits 20 n (omega arith) fits in
    rw (nonempty, enough) value

-- The number that a text of digits stands for, behind one that was read.
unfoldable pub decimal : Bytes → ℕ → ℕ
decimal [] r = r
decimal (c ∷ text) r = decimal text (r * 10 + (c - 48))

-- A round that goes on was at a digit, and did not overflow.
parse_digits-IsDigit :
    (c : ℕ) (text : Bytes) (r v : ℕ)
    → parse_digits (c ∷ text) r ≡ some v
    → IsDigit c × (r * 10 + (c - 48) < 2 ^ 64) × (parse_digits text (r * 10 + (c - 48)) ≡ some v)
unfolding parse_digits
parse_digits-IsDigit c text r v e = ground arith

parse_digits-decimal :
    (text : Bytes) (r v : ℕ)
    → r < 2 ^ 64
    → parse_digits text r ≡ some v
    → All IsDigit text × (v ≡ decimal text r) × (v < 2 ^ 64)
unfolding parse_digits decimal
parse_digits-decimal [] r v small e = (tt, ground arith, ground arith)
parse_digits-decimal (c ∷ text) r v small e =
    let (is_digit, fits, more) = parse_digits-IsDigit c text r v e in
    let (digits, value, bound) = parse_digits-decimal text (r * 10 + (c - 48)) v fits more in
    ((is_digit, digits), value, bound)

-- Where parse_number gives a number, the text is of digits alone, the number is the one that they
-- stand for, and it has 64 bits: none that is larger wraps around.
pub parse_number-decimal :
    (text : Bytes) (v : ℕ)
    → parse_number text ≡ some v
    → All IsDigit text × (v ≡ decimal text 0) × (v < 2 ^ 64)
unfolding parse_number
parse_number-decimal text v e = parse_digits-decimal text 0 v (omega arith) (ground arith)
