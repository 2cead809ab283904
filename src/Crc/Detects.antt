-- ===== src/Crc/Detects.antt =====
-- encoding.cpp: the checksum tells apart two strings that differ in one byte.
use mathlib.Core.List.{foldl}
use ambar.Prelude.{
  ℕ, ◌+◌, ◌*◌, ◌/◌, ◌%◌, ◌^◌, ◌<◌, bit_and, bit_xor, ◌>>>◌, arith, ◌≡◌, ◌≢◌, refl, ap, sym, ◌∙◌,
  true, not, ◌==◌, ==_iff, [], ◌∷◌, ◌++◌, Bytes, IsByte, AreBytes, ◌⊎◌, inl, inr, bit_and_mask,
  bit_xor-lt, bit_xor_cancel, bit_xor_comm, zero-bit_xor, bit_xor_fields, each_below, each_below-at,
}
use ambar.Crc.{complement, crc_table, crc_step, crc32c_extend}
use ambar.Crc.Extend.{crc_step-lt, crc_steps-lt, foldl-append}

-- The upper bytes of the entries are all different.
tops_differ :
    each_below 256
      (λ i. let top = crc_table i / 2 ^ 24 in each_below i (λ j. not (top == crc_table j / 2 ^ 24)))
    ≡ true
unfolding each_below crc_table
tops_differ = refl

tops_below : (i j : ℕ) → i < 256 → j < i → crc_table i / 2 ^ 24 ≢ crc_table j / 2 ^ 24
tops_below i j hi hj e =
    cc (each_below-at i _ j (each_below-at 256 _ i tops_differ hi) hj, (==_iff _ _).1 e)

crc_table_injective :
    (i j : ℕ) → i < 256 → j < 256 → crc_table i / 2 ^ 24 ≡ crc_table j / 2 ^ 24 → i ≡ j
crc_table_injective i j hi hj e = elim (compare_cases i j) [
  | inl lt ↦ absurd (tops_below j i hj lt (sym e))
  | inr (inl gt) ↦ absurd (tops_below i j hi gt e)
  | inr (inr eq) ↦ eq
]
  where
    compare_cases : (a b : ℕ) → (a < b) ⊎ ((b < a) ⊎ (a ≡ b))
    compare_cases a b = omega arith

abbrev index : ℕ → ℕ → ℕ
index crc c = bit_and (bit_xor crc c) 0xff

index-lt : (crc c : ℕ) → index crc c < 256
index-lt crc c = omega (arith, bit_and_mask 8 (bit_xor crc c))

-- The entry is chosen by the lowest byte of the checksum and by the byte read.
index-low : (crc c : ℕ) → c < 256 → index crc c ≡ bit_xor (crc % 256) c
index-low crc c hc = ground (
  arith,
  bit_and_mask 8 (bit_xor crc c),
  bit_xor_fields 8 (crc / 256) 0 (crc % 256) c (omega arith) (omega arith),
  bit_xor-lt 8 (crc % 256) c (omega arith) (omega arith),
  add_split crc,
)
  where
    add_split : (n : ℕ) → n ≡ n / 256 * 2 ^ 8 + n % 256
    add_split n = omega arith

bit_xor-zero : (a : ℕ) → bit_xor a 0 ≡ a
bit_xor-zero a = bit_xor_comm a 0 ∙ zero-bit_xor a

-- The entry alone decides the upper byte of what a step gives.
xor_top : (t s : ℕ) → s < 2 ^ 24 → bit_xor t s / 2 ^ 24 ≡ t / 2 ^ 24
xor_top t s hs = ground (
  arith,
  bit_xor_fields 24 (t / 2 ^ 24) 0 (t % 2 ^ 24) s (omega arith) hs,
  bit_xor-zero (t / 2 ^ 24),
  bit_xor-lt 24 (t % 2 ^ 24) s (omega arith) hs,
  add_split t,
)
  where
    add_split : (n : ℕ) → n ≡ n / 2 ^ 24 * 2 ^ 24 + n % 2 ^ 24
    add_split n = omega arith

crc_step_top :
    (crc c : ℕ) → crc < 2 ^ 32 → crc_step crc c / 2 ^ 24 ≡ crc_table (index crc c) / 2 ^ 24
unfolding crc_step
crc_step_top crc c h = xor_top (crc_table (index crc c)) (crc >>> 8) (omega arith)

bit_xor_cancel_right : (a b c : ℕ) → bit_xor b a ≡ bit_xor c a → b ≡ c
bit_xor_cancel_right a b c e = bit_xor_cancel a b c (bit_xor_comm a b ∙ e ∙ bit_xor_comm c a)

-- From the same checksum different bytes lead to different checksums.
step_injective_byte : (crc a b : ℕ) → a < 256 → b < 256 → crc_step crc a ≡ crc_step crc b → a ≡ b
unfolding crc_step
step_injective_byte crc a b ha hb e =
    let entries =
      bit_xor_cancel_right (crc >>> 8) (crc_table (index crc a)) (crc_table (index crc b)) e in
    let indices =
      crc_table_injective (index crc a) (index crc b) (index-lt crc a) (index-lt crc b)
        (ap (λ (t : ℕ). t / 2 ^ 24) entries) in
    bit_xor_cancel (crc % 256) a b (sym (index-low crc a ha) ∙ indices ∙ index-low crc b hb)

-- The same byte leads from different checksums to different checksums.
step_injective_crc :
    (c x y : ℕ) → c < 256 → x < 2 ^ 32 → y < 2 ^ 32 → crc_step x c ≡ crc_step y c → x ≡ y
step_injective_crc c x y hc hx hy e =
    let indices =
      crc_table_injective (index x c) (index y c) (index-lt x c) (index-lt y c)
        (sym (crc_step_top x c hx) ∙ ap (λ (t : ℕ). t / 2 ^ 24) e ∙ crc_step_top y c hy) in
    let low =
      bit_xor_cancel_right c (x % 256) (y % 256)
        (sym (index-low x c hc) ∙ indices ∙ index-low y c hc) in
    omega (arith, high indices)
  where
    high : index x c ≡ index y c → x >>> 8 ≡ y >>> 8
    high p =
        bit_xor_cancel (crc_table (index x c)) (x >>> 8) (y >>> 8)
          (unfold crc_step in e ∙ ap (λ (i : ℕ). bit_xor (crc_table i) (y >>> 8)) (sym p))

steps_injective :
    (bytes : Bytes) (x y : ℕ)
    → AreBytes bytes
    → x < 2 ^ 32
    → y < 2 ^ 32
    → foldl crc_step x bytes ≡ foldl crc_step y bytes
    → x ≡ y
steps_injective [] x y h hx hy e = e
steps_injective (c ∷ bytes) x y (hc, h) hx hy e = step_injective_crc c x y hc hx hy (
    steps_injective bytes (crc_step x c) (crc_step y c) h (crc_step-lt x c hx) (crc_step-lt y c hy)
      e)

-- Two strings of bytes that differ in one byte alone have different checksums, from every checksum
-- of 32 bits on: if the checksums agree, so do the two bytes.
pub crc32c_extend_detects :
    (crc : ℕ) (front back : Bytes) (a b : ℕ)
    → crc < 2 ^ 32
    → AreBytes back
    → IsByte a
    → IsByte b
    → crc32c_extend crc (front ++ (a ∷ back)) ≡ crc32c_extend crc (front ++ (b ∷ back))
    → a ≡ b
unfolding crc32c_extend
crc32c_extend_detects crc front back a b hcrc hback ha hb e = step_injective_byte mid a b ha hb (
    steps_injective back (crc_step mid a) (crc_step mid b) hback (crc_step-lt mid a mid_fits)
      (crc_step-lt mid b mid_fits)
      (sym (foldl-append crc_step front (a ∷ back) (complement crc))
        ∙ uncomplement
        ∙ foldl-append crc_step front (b ∷ back) (complement crc)))
  where
    mid : ℕ
    mid = foldl crc_step (complement crc) front

    mid_fits : mid < 2 ^ 32
    mid_fits = crc_steps-lt front (complement crc) (omega arith)

    uncomplement :
        foldl crc_step (complement crc) (front ++ (a ∷ back))
        ≡ foldl crc_step (complement crc) (front ++ (b ∷ back))
    uncomplement = omega (
      arith,
      crc_steps-lt (front ++ (a ∷ back)) (complement crc) (omega arith),
      crc_steps-lt (front ++ (b ∷ back)) (complement crc) (omega arith),
    )
