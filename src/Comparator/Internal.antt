-- ===== src/Comparator/Internal.antt =====
-- comparator.cpp: where the shortened internal keys stand.
use Prim.Native.Nat.{lt, gt}
use ambar.Prelude.{Bytes, arith, ◌≡◌, ◌≢◌}
use ambar.Order.{compare_bytes}
use ambar.InternalKey.{
  compare_internal_keys, extract_user_key, make_internal_key, max_sequence_number, value,
}
use ambar.InternalKey.Codec.{extract_user_key-make}
use ambar.InternalKey.Compare.{compare_internal_keys_refl}
use ambar.Comparator.{
  bytewise_shortest_separator, bytewise_short_successor, internal_shortest_separator,
  internal_short_successor,
}

-- Where user keys differ they decide.
by_user-lt :
    (a b : Bytes)
    → compare_bytes (extract_user_key a) (extract_user_key b) ≡ lt
    → compare_internal_keys a b ≡ lt
unfolding compare_internal_keys
by_user-lt a b h = ground arith

-- Of two internal keys of which the first stands before the second, the separator stands at or
-- after the first and before the second.
pub internal_shortest_separator_bounds :
    (start limit : Bytes)
    → compare_internal_keys start limit ≡ lt
    → (compare_internal_keys start (internal_shortest_separator start limit) ≢ gt)
      × (compare_internal_keys (internal_shortest_separator start limit) limit ≡ lt)
unfolding internal_shortest_separator
internal_shortest_separator_bounds start limit h =
    let shortened = bytewise_shortest_separator (extract_user_key start) (extract_user_key limit) in
    let key = make_internal_key shortened max_sequence_number value in
    ground (
      arith,
      compare_internal_keys_refl start,
      extract_user_key-make shortened max_sequence_number value,
      by_user-lt start key,
      by_user-lt key limit,
    )

-- The short successor of an internal key stands at or after the key.
pub internal_short_successor_bounds :
    (key : Bytes) → compare_internal_keys key (internal_short_successor key) ≢ gt
unfolding internal_short_successor
internal_short_successor_bounds key =
    let shortened = bytewise_short_successor (extract_user_key key) in
    let next = make_internal_key shortened max_sequence_number value in
    ground (
      arith,
      compare_internal_keys_refl key,
      extract_user_key-make shortened max_sequence_number value,
      by_user-lt key next,
    )
