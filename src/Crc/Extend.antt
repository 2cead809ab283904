-- ===== src/Crc/Extend.antt =====
-- encoding.cpp: a checksum taken in pieces.
use mathlib.Core.List.{foldl}
use ambar.Prelude.{
  ℕ, ◌^◌, ◌<◌, bit_xor, arith, ◌≡◌, refl, [], ◌∷◌, ◌++◌, Bytes, bit_and_mask, bit_xor-lt,
  each_below, each_below-at, ltb, ltb→lt, true,
}
use ambar.Crc.{complement, crc_table, crc_step, crc32c_extend}

table_fits : each_below 256 (λ i. ltb (crc_table i) (2 ^ 32)) ≡ true
unfolding each_below crc_table
table_fits = refl

crc_table-lt : (i : ℕ) → i < 256 → crc_table i < 2 ^ 32
crc_table-lt i h = ltb→lt _ _ (each_below-at 256 _ i table_fits h)

pub crc_step-lt : (crc c : ℕ) → crc < 2 ^ 32 → crc_step crc c < 2 ^ 32
unfolding crc_step
crc_step-lt crc c h =
    bit_xor-lt 32 _ _ (crc_table-lt _ (omega (arith, bit_and_mask 8 (bit_xor crc c)))) (omega arith)

pub crc_steps-lt : (bytes : Bytes) (crc : ℕ) → crc < 2 ^ 32 → foldl crc_step crc bytes < 2 ^ 32
crc_steps-lt [] crc h = h
crc_steps-lt (c ∷ bytes) crc h = crc_steps-lt bytes (crc_step crc c) (crc_step-lt crc c h)

pub foldl-append :
    (f : ℕ → ℕ → ℕ) (xs ys : Bytes) (a : ℕ) → foldl f a (xs ++ ys) ≡ foldl f (foldl f a xs) ys
foldl-append f [] ys a = refl
foldl-append f (x ∷ xs) ys a = foldl-append f xs ys (f a x)

-- A checksum is an unsigned number of 32 bits.
pub crc32c_extend-lt : (crc : ℕ) (bytes : Bytes) → crc32c_extend crc bytes < 2 ^ 32
unfolding crc32c_extend
crc32c_extend-lt crc bytes = omega arith

-- The checksum of a string in two pieces is the checksum of the first piece, extended by the
-- second.
pub crc32c_extend-append :
    (crc : ℕ) (xs ys : Bytes)
    → crc32c_extend crc (xs ++ ys) ≡ crc32c_extend (crc32c_extend crc xs) ys
unfolding crc32c_extend
crc32c_extend-append crc xs ys = rw (foldl-append, again) refl
  where
    mid : ℕ
    mid = foldl crc_step (complement crc) xs

    again : complement (complement mid) ≡ mid
    again = omega (arith, crc_steps-lt xs (complement crc) (omega arith))
