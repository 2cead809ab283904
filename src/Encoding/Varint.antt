-- ===== src/Encoding/Varint.antt =====
-- encoding.cpp: what the varint writer writes and what the reader makes of it.
use mathlib.Core.WellFounded.{Acc}
use native.Mathlib.Nat.{pow-suc, div-add-mod}
use native.Mathlib.Numerals.{towards_suc}
use ambar.Prelude.{
  refl, ℕ, zero, suc, ◌+◌, ◌*◌, ◌/◌, ◌%◌, ◌^◌, ◌≤◌, ◌<◌, bit_and, bit_or, u8, arith, ◌≡◌, ap, some,
  [], ◌∷◌, ◌++◌, append_assoc, Bytes, AreBytes, length, lt_wf, ltb, if◌then◌else◌, bit_and_mask,
  top_bit, set_top_bit, sym, ◌⊎◌, ◌∙◌, Bool-cases, inl, ltb→lt, inr,
}
use ambar.Encoding.{
  put_varint_loop, put_varint32, put_varint64, encode_varint32, get_varint, get_varint32,
  get_varint64,
}
use ambar.Encoding.Fixed.{or_field}

-- The groups of seven bits of a number below 128 ^ (k + 1), lowest first.
unfoldable pub groups : ℕ → ℕ → Bytes
groups zero v = v ∷ []
groups (suc k) v =
    let more = groups k (v / 128) in if ltb v 128 then v ∷ [] else (v % 128 + 128) ∷ more

-- The byte with the continuation bit that the writer makes of the lowest seven bits.
inner_byte : (v : ℕ) → u8 (bit_or (bit_and v 0x7f) 0x80) ≡ v % 128 + 128
inner_byte v = ground (arith, bit_and_mask 7 v, set_top_bit (v % 128))

put_varint_loop-groups :
    (k : ℕ) (dst : Bytes) (v : ℕ) (w : Acc ◌<◌ v)
    → v < 128 ^ suc k
    → put_varint_loop dst v w ≡ dst ++ groups k v
unfolding put_varint_loop groups
put_varint_loop-groups zero dst v (Acc.intro _ smaller) h = ground arith
put_varint_loop-groups (suc k) dst v (Acc.intro _ smaller) h =
    let byte : Bytes = (v % 128 + 128) ∷ [] in
    grind (
      arith,
      inner_byte v,
      λ (w : Acc ◌<◌ (v / 128)).
          put_varint_loop-groups k (dst ++ byte) (v / 128) w (omega (arith, pow-suc 128 (suc k))),
      append_assoc dst byte (groups k (v / 128)),
    )

pub put_varint32-groups :
    (dst : Bytes) (v : ℕ) → v < 2 ^ 32 → put_varint32 dst v ≡ dst ++ groups 4 v
unfolding put_varint32
put_varint32-groups dst v h = put_varint_loop-groups 4 dst v (lt_wf.apply v) (omega arith)

pub put_varint64-groups :
    (dst : Bytes) (v : ℕ) → v < 2 ^ 64 → put_varint64 dst v ≡ dst ++ groups 9 v
unfolding put_varint64
put_varint64-groups dst v h = put_varint_loop-groups 9 dst v (lt_wf.apply v) (omega arith)

pub encode_varint32-groups : (v : ℕ) → v < 2 ^ 32 → encode_varint32 v ≡ groups 4 v
unfolding encode_varint32
encode_varint32-groups v h = put_varint_loop-groups 4 [] v (lt_wf.apply v) (omega arith)

pub length-groups : (k v : ℕ) → (1 ≤ length (groups k v)) × (length (groups k v) ≤ k + 1)
unfolding groups
length-groups zero v = omega arith
length-groups (suc k) v = ground (arith, length-groups k (v / 128))

pub groups-AreBytes : (k v : ℕ) → v < 128 ^ suc k → AreBytes (groups k v)
unfolding groups
groups-AreBytes zero v h = (omega arith, tt)
groups-AreBytes (suc k) v h =
    ground (arith, groups-AreBytes k (v / 128) (omega (arith, pow-suc 128 (suc k))))

-- One round of the reader, on the last byte and on one with the continuation bit.
last_round :
    (w n b s r : ℕ) (rest : Bytes)
    → b < 128
    → r < 2 ^ s
    → b * 2 ^ s < 2 ^ w
    → get_varint w (suc n) (b ∷ rest) r s ≡ some (r + b * 2 ^ s, rest)
unfolding get_varint
last_round w n b s r rest hb hr fits =
    ground (arith, bit_and_mask 7 b, top_bit b, or_field w s b r hr fits)

inner_round :
    (w n g s r : ℕ) (rest : Bytes)
    → g < 128
    → r < 2 ^ s
    → g * 2 ^ s < 2 ^ w
    → get_varint w (suc n) ((g + 128) ∷ rest) r s ≡ get_varint w n rest (r + g * 2 ^ s) (s + 7)
unfolding get_varint
inner_round w n g s r rest hg hr fits =
    ground (arith, bit_and_mask 7 (g + 128), top_bit (g + 128), or_field w s g r hr fits)

shift_seven : (s : ℕ) → 2 ^ (s + 7) ≡ 128 * 2 ^ s
shift_seven s = simp towards_suc (omega arith)

-- The lowest group of `v` and the others, both shifted by `s`.
split_low : (v s : ℕ) → v * 2 ^ s ≡ v % 128 * 2 ^ s + v / 128 * 2 ^ (s + 7)
split_low v s = omega (
  arith,
  ap (λ (t : ℕ). t * 2 ^ s) (div-add-mod v 128),
  ap (λ (t : ℕ). v / 128 * t) (shift_seven s),
)

low_fits : (g s r : ℕ) → g < 128 → r < 2 ^ s → r + g * 2 ^ s < 2 ^ (s + 7)
low_fits g s r hg hr = grind (arith, shift_seven s)

get_varint-groups :
    (w k v s r : ℕ) (rest : Bytes)
    → v < 128 ^ suc k
    → r < 2 ^ s
    → r + v * 2 ^ s < 2 ^ w
    → get_varint w (suc k) (groups k v ++ rest) r s ≡ some (r + v * 2 ^ s, rest)
unfolding groups
get_varint-groups w zero v s r rest hv hr fits =
    last_round w 0 v s r rest (omega arith) hr (omega arith)
get_varint-groups w (suc k) v s r rest hv hr fits = ground (
  arith,
  split_low v s,
  low_fits (v % 128) s r (omega arith) hr,
  last_round w (suc k) v s r rest,
  inner_round w (suc k) (v % 128) s r (groups k (v / 128) ++ rest) (omega arith) hr,
  get_varint-groups w k (v / 128) (s + 7) (r + v % 128 * 2 ^ s) rest
      (omega (arith, pow-suc 128 (suc k))),
)

-- A number of 32 bits that put_varint32 wrote is read back by get_varint32, and what follows it is
-- left.
pub get-put_varint32 :
    (v : ℕ) (rest : Bytes) → v < 2 ^ 32 → get_varint32 (put_varint32 [] v ++ rest) ≡ some (v, rest)
unfolding get_varint32
get-put_varint32 v rest h =
    rw (put_varint32-groups [] v h) (ground (arith, get_varint-groups 32 4 v 0 0 rest))

-- A number of 64 bits that put_varint64 wrote is read back by get_varint64, and what follows it is
-- left.
pub get-put_varint64 :
    (v : ℕ) (rest : Bytes) → v < 2 ^ 64 → get_varint64 (put_varint64 [] v ++ rest) ≡ some (v, rest)
unfolding get_varint64
get-put_varint64 v rest h =
    rw (put_varint64-groups [] v h) (ground (arith, get_varint-groups 64 9 v 0 0 rest))

pub get-groups32 :
    (v : ℕ) (rest : Bytes) → v < 2 ^ 32 → get_varint32 (groups 4 v ++ rest) ≡ some (v, rest)
get-groups32 v rest h =
    ap (λ (bs : Bytes). get_varint32 (bs ++ rest)) (sym (put_varint32-groups [] v h))
    ∙ get-put_varint32 v rest h

pub get-groups64 :
    (v : ℕ) (rest : Bytes) → v < 2 ^ 64 → get_varint64 (groups 9 v ++ rest) ≡ some (v, rest)
get-groups64 v rest h =
    ap (λ (bs : Bytes). get_varint64 (bs ++ rest)) (sym (put_varint64-groups [] v h))
    ∙ get-put_varint64 v rest h

-- The first byte tells whether the number is it.
pub groups-head :
    (k v : ℕ)
    → (rest : Bytes)
    → ((v < 128) × (groups (suc k) v ++ rest ≡ v ∷ rest))
      ⊎ ((c : ℕ) × (cs : Bytes) × (128 ≤ c) × (groups (suc k) v ++ rest ≡ c ∷ cs))
unfolding groups
groups-head k v rest = elim (Bool-cases (ltb v 128)) [
  | inl small ↦ inl (ltb→lt v 128 small, rw small refl)
  | inr large ↦ inr (v % 128 + 128, groups k (v / 128) ++ rest, omega arith, rw large refl)
]
