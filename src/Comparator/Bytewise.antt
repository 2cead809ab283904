-- ===== src/Comparator/Bytewise.antt =====
-- comparator.cpp: where the shortened user keys stand.
use Prim.Native.Nat.{lt, gt}
use native.Mathlib.Numerals.{towards_suc}
use ambar.Prelude.{
  ℕ, suc, ◌+◌, ◌≤◌, [], ◌∷◌, Bytes, length, take, set, ◌&&◌, ltb, ◌==◌, if◌then◌else◌, arith, ◌≡◌,
  ◌≢◌, refl,
}
use ambar.Encoding.{byte_at}
use ambar.Order.{compare_bytes, compare_bytes_refl}
use ambar.Comparator.{first_difference, bytewise_shortest_separator, bytewise_short_successor}

-- The separator read from the front of the two keys.
separator : Bytes → Bytes → Bytes
separator [] limit = []
separator (x ∷ start) [] = x ∷ start
separator (x ∷ start) (y ∷ limit) =
    if x == y
    then x ∷ separator start limit
    else if ltb x 0xff && ltb (x + 1) y
    then (x + 1) ∷ []
    else x ∷ start

shortest_separator-separator :
    (start limit : Bytes) → bytewise_shortest_separator start limit ≡ separator start limit
unfolding bytewise_shortest_separator first_difference separator
shortest_separator-separator [] limit = ground arith
shortest_separator-separator (x ∷ start) [] = ground arith
shortest_separator-separator (x ∷ start) (y ∷ limit) = ground (
  arith,
  shortest_separator-separator start limit,
  cut (first_difference start limit) (byte_at start (first_difference start limit) + 1),
)
  where
    cut : (d v : ℕ) → take (suc d + 1) (x ∷ set start d v) ≡ x ∷ take (d + 1) (set start d v)
    cut d v = simp towards_suc refl

separator_bounds :
    (start limit : Bytes)
    → compare_bytes start limit ≡ lt
    → (compare_bytes start (separator start limit) ≢ gt)
      × (compare_bytes (separator start limit) limit ≡ lt)
      × (length (separator start limit) ≤ length start)
unfolding separator compare_bytes
separator_bounds [] [] h = cc
separator_bounds [] (y ∷ limit) h = ground arith
separator_bounds (x ∷ start) [] h = cc
separator_bounds (x ∷ start) (y ∷ limit) h =
    ground (arith, separator_bounds start limit, compare_bytes_refl start)

-- Of two strings of which the first stands before the second in bytewise order, the separator
-- stands at or after the first and before the second, and is no longer than the first.
pub bytewise_shortest_separator_bounds :
    (start limit : Bytes)
    → compare_bytes start limit ≡ lt
    → (compare_bytes start (bytewise_shortest_separator start limit) ≢ gt)
      × (compare_bytes (bytewise_shortest_separator start limit) limit ≡ lt)
      × (length (bytewise_shortest_separator start limit) ≤ length start)
bytewise_shortest_separator_bounds start limit h =
    rw (shortest_separator-separator start limit) (separator_bounds start limit h)

-- The short successor of a string stands at or after it in bytewise order, and is no longer.
pub bytewise_short_successor_bounds :
    (key : Bytes)
    → (compare_bytes key (bytewise_short_successor key) ≢ gt)
      × (length (bytewise_short_successor key) ≤ length key)
unfolding bytewise_short_successor compare_bytes
bytewise_short_successor_bounds [] = ground arith
bytewise_short_successor_bounds (b ∷ key) = ground (arith, bytewise_short_successor_bounds key)
