-- ===== src/Prelude/Bits.antt =====
-- Bit operations as arithmetic, at every width.
mod Digits
use Digits.{bit_or_step, bit_and_step, bit_xor_step}
use Prim.Native.Nat.{ℕ, zero, suc, ◌+◌, ◌-◌, ◌*◌, ◌/◌, ◌%◌, ◌^◌, ◌≤◌, ◌<◌, max, min}
use Prim.Native.Nat.{bit_and, bit_or, bit_xor, bit_or-bitwise, bit_xor-bitwise, differ}
use mathlib.Core.Path.{◌≡◌, refl, ap, ap₂, sym, ◌∙◌}
use native.Mathlib.Nat.{pow-suc, one-le-pow}
use native.Mathlib.Omega.{arith}

-- `x << k` before it is cut to the type's width, and `x >> k`.
infixl 75 ◌<<<◌ ◌>>>◌
abbrev pub ◌<<<◌ : ℕ → ℕ → ℕ
x <<< k = x * 2 ^ k

abbrev pub ◌>>>◌ : ℕ → ℕ → ℕ
x >>> k = x / 2 ^ k

-- Casts to the unsigned types.
abbrev pub u8 : ℕ → ℕ
u8 n = n % 2 ^ 8

abbrev pub u32 : ℕ → ℕ
u32 n = n % 2 ^ 32

abbrev pub u64 : ℕ → ℕ
u64 n = n % 2 ^ 64

bit_or-zero_below : (n a : ℕ) → a ≤ n → bit_or a 0 ≡ a
bit_or-zero_below n zero h = refl
bit_or-zero_below zero (suc a) h = absurd (omega arith)
bit_or-zero_below (suc n) (suc a) h =
    omega (arith, bit_or_step (suc a) 0, bit_or-zero_below n (suc a / 2) (omega arith))

bit_and-zero_below : (n a : ℕ) → a ≤ n → bit_and a 0 ≡ 0
bit_and-zero_below n zero h = refl
bit_and-zero_below zero (suc a) h = absurd (omega arith)
bit_and-zero_below (suc n) (suc a) h =
    omega (arith, bit_and_step (suc a) 0, bit_and-zero_below n (suc a / 2) (omega arith))

double_pow : (q k : ℕ) → q * 2 ^ suc k ≡ 2 * (q * 2 ^ k)
double_pow q k = omega (arith, ap (λ (t : ℕ). q * t) (pow-suc 2 k))

zero-bit_or : (b : ℕ) → bit_or 0 b ≡ b
zero-bit_or b = bit_or-bitwise 0 b

bit_or_comm_below : (n a b : ℕ) → a ≤ n → bit_or a b ≡ bit_or b a
bit_or_comm_below n zero b h = zero-bit_or b ∙ sym (bit_or-zero_below b b (omega arith))
bit_or_comm_below zero (suc a) b h = absurd (omega arith)
bit_or_comm_below (suc n) (suc a) b h = omega (
  arith,
  bit_or_step (suc a) b,
  bit_or_step b (suc a),
  bit_or_comm_below n (suc a / 2) (b / 2) (omega arith),
)

pub bit_or_comm : (a b : ℕ) → bit_or a b ≡ bit_or b a
bit_or_comm a b = bit_or_comm_below a a b (omega arith)

-- `(q << k) | r` is a sum when `r` fits `k` bits.
pub bit_or_fields : (k q r : ℕ) → r < 2 ^ k → bit_or (q <<< k) r ≡ q * 2 ^ k + r
bit_or_fields zero q r fits = ground (arith, bit_or-zero_below q q (omega arith))
bit_or_fields (suc k) q r fits = ground (
  arith,
  bit_or_step (q * 2 ^ suc k) r,
  double_pow q k,
  pow-suc 2 k,
  bit_or_fields k q (r / 2) (omega (arith, pow-suc 2 k)),
)

pub bit_or_fields_right : (k q r : ℕ) → r < 2 ^ k → bit_or r (q <<< k) ≡ r + q * 2 ^ k
bit_or_fields_right k q r fits = omega (arith, bit_or_comm r (q <<< k), bit_or_fields k q r fits)

-- A mask of `k` low bits is the remainder by `2 ^ k`.
bit_and_fields : (k q r : ℕ) → r < 2 ^ k → bit_and (q * 2 ^ k + r) (2 ^ k - 1) ≡ r
bit_and_fields zero q r fits =
    omega (arith, bit_and-zero_below (q * 1 + r) (q * 1 + r) (omega arith))
bit_and_fields (suc k) q r fits = ground (
  arith,
  bit_and_step (q * 2 ^ suc k + r) (2 ^ suc k - 1),
  double_pow q k,
  pow-suc 2 k,
  one-le-pow k 2,
  bit_and_fields k q (r / 2) (omega (arith, pow-suc 2 k)),
)

pub bit_and_mask : (k a : ℕ) → bit_and a (2 ^ k - 1) ≡ a % 2 ^ k
bit_and_mask k a = ground (arith, one-le-pow k 2, bit_and_fields k (a / 2 ^ k) (a % 2 ^ k))

-- An exclusive or stays in the width of its arguments.
pub bit_xor-lt : (k a b : ℕ) → a < 2 ^ k → b < 2 ^ k → bit_xor a b < 2 ^ k
bit_xor-lt zero a b ha hb =
    let ea : a ≡ 0 = omega arith in let eb : b ≡ 0 = omega arith in rw (ea, eb) (omega arith)
bit_xor-lt (suc k) a b ha hb = ground (
  arith,
  bit_xor_step a b,
  pow-suc 2 k,
  differ_digits (a % 2) (b % 2) (omega arith) (omega arith),
  bit_xor-lt k (a / 2) (b / 2) (omega (arith, pow-suc 2 k)) (omega (arith, pow-suc 2 k)),
)
  where
    differ_digits : (x y : ℕ) → x < 2 → y < 2 → differ x y < 2
    differ_digits zero y hx hy = hy
    differ_digits (suc zero) zero hx hy = omega arith
    differ_digits (suc zero) (suc y) hx hy = omega arith
    differ_digits (suc (suc x)) y hx hy = absurd (omega arith)

pub bit_or-lt : (k a b : ℕ) → a < 2 ^ k → b < 2 ^ k → bit_or a b < 2 ^ k
bit_or-lt zero a b ha hb =
    let ea : a ≡ 0 = omega arith in let eb : b ≡ 0 = omega arith in rw (ea, eb) (omega arith)
bit_or-lt (suc k) a b ha hb = omega (
  arith,
  bit_or_step a b,
  pow-suc 2 k,
  bit_or-lt k (a / 2) (b / 2) (omega (arith, pow-suc 2 k)) (omega (arith, pow-suc 2 k)),
)

bit_or-ge_below : (n a b : ℕ) → a ≤ n → a ≤ bit_or a b
bit_or-ge_below n zero b h = omega arith
bit_or-ge_below zero (suc a) b h = absurd (omega arith)
bit_or-ge_below (suc n) (suc a) b h =
    omega (arith, bit_or_step (suc a) b, bit_or-ge_below n (suc a / 2) (b / 2) (omega arith))

-- An or is no less than its parts.
pub bit_or-ge : (a b : ℕ) → (a ≤ bit_or a b) × (b ≤ bit_or a b)
bit_or-ge a b = (
  bit_or-ge_below a a b (omega arith),
  omega (arith, bit_or_comm a b, bit_or-ge_below b b a (omega arith)),
)

pub zero-bit_xor : (b : ℕ) → bit_xor 0 b ≡ b
zero-bit_xor b = bit_xor-bitwise 0 b

differ_twice : (x y : ℕ) → x < 2 → y < 2 → differ x (differ x y) ≡ y
differ_twice zero y hx hy = refl
differ_twice (suc zero) zero hx hy = refl
differ_twice (suc zero) (suc zero) hx hy = refl
differ_twice (suc zero) (suc (suc y)) hx hy = absurd (omega arith)
differ_twice (suc (suc x)) y hx hy = absurd (omega arith)

differ_digit : (x y : ℕ) → x < 2 → y < 2 → differ x y < 2
differ_digit zero y hx hy = hy
differ_digit (suc zero) zero hx hy = omega arith
differ_digit (suc zero) (suc y) hx hy = omega arith
differ_digit (suc (suc x)) y hx hy = absurd (omega arith)

-- The same mask twice changes nothing.
bit_xor_twice_below : (n a b : ℕ) → a ≤ n → bit_xor a (bit_xor a b) ≡ b
bit_xor_twice_below n zero b h = zero-bit_xor (bit_xor 0 b) ∙ zero-bit_xor b
bit_xor_twice_below zero (suc a) b h = absurd (omega arith)
bit_xor_twice_below (suc n) (suc a) b h = ground (
  arith,
  bit_xor_step (suc a) b,
  bit_xor_step (suc a) (bit_xor (suc a) b),
  differ_digit (suc a % 2) (b % 2) (omega arith) (omega arith),
  differ_twice (suc a % 2) (b % 2) (omega arith) (omega arith),
  bit_xor_twice_below n (suc a / 2) (b / 2) (omega arith),
)

pub bit_xor_cancel : (a b c : ℕ) → bit_xor a b ≡ bit_xor a c → b ≡ c
bit_xor_cancel a b c e =
    sym (bit_xor_twice_below a a b (omega arith))
    ∙ ap (bit_xor a) e
    ∙ bit_xor_twice_below a a c (omega arith)

differ_comm : (x y : ℕ) → x < 2 → y < 2 → differ x y ≡ differ y x
differ_comm zero zero hx hy = refl
differ_comm zero (suc y) hx hy = refl
differ_comm (suc zero) zero hx hy = refl
differ_comm (suc zero) (suc zero) hx hy = refl
differ_comm (suc zero) (suc (suc y)) hx hy = absurd (omega arith)
differ_comm (suc (suc x)) y hx hy = absurd (omega arith)

bit_xor_comm_below : (n a b : ℕ) → a ≤ n → b ≤ n → bit_xor a b ≡ bit_xor b a
bit_xor_comm_below zero zero zero ha hb = refl
bit_xor_comm_below zero (suc a) b ha hb = absurd (omega arith)
bit_xor_comm_below zero a (suc b) ha hb = absurd (omega arith)
bit_xor_comm_below (suc n) a b ha hb = omega (
  arith,
  bit_xor_step a b,
  bit_xor_step b a,
  differ_comm (a % 2) (b % 2) (omega arith) (omega arith),
  bit_xor_comm_below n (a / 2) (b / 2) (omega arith) (omega arith),
)

pub bit_xor_comm : (a b : ℕ) → bit_xor a b ≡ bit_xor b a
bit_xor_comm a b = bit_xor_comm_below (a + b) a b (omega arith) (omega arith)

-- An exclusive or of two fields is taken field by field.
pub bit_xor_fields :
    (k qa qb ra rb : ℕ)
    → ra < 2 ^ k
    → rb < 2 ^ k
    → bit_xor (qa * 2 ^ k + ra) (qb * 2 ^ k + rb) ≡ bit_xor qa qb * 2 ^ k + bit_xor ra rb
bit_xor_fields zero qa qb ra rb ha hb =
    let ea : ra ≡ 0 = omega arith in let eb : rb ≡ 0 = omega arith in ground (arith, zero-bit_xor 0)
bit_xor_fields (suc k) qa qb ra rb ha hb = ground (
  arith,
  bit_xor_step (qa * 2 ^ suc k + ra) (qb * 2 ^ suc k + rb),
  bit_xor_step ra rb,
  double_pow qa k,
  double_pow qb k,
  double_pow (bit_xor qa qb) k,
  pow-suc 2 k,
  bit_xor_fields k qa qb (ra / 2) (rb / 2) (omega (arith, pow-suc 2 k))
      (omega (arith, pow-suc 2 k)),
)
