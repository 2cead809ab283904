-- ===== src/Comparator.antt =====
-- comparator.cpp: the two comparators, and the shortened keys that an index block stores.
pub mod Bytewise
pub mod Internal
use Prim.Native.String.{String}
use Prim.Native.Nat.{Ordering, lt, eq, gt}
use ambar.Prelude.{
  ℕ, zero, suc, ◌+◌, min, [], ◌∷◌, Bytes, length, take, set, Bool, true, false, not, ◌&&◌, ltb, leb,
  ◌==◌, if◌then◌else◌,
}
use ambar.Encoding.{byte_at}
use ambar.Order.{compare_bytes}
use ambar.InternalKey.{
  value_type_for_seek, max_sequence_number, extract_user_key, make_internal_key,
  compare_internal_keys,
}

-- `bytewise_compare`: the sign of string_view's answer.
abbrev pub bytewise_compare : Bytes → Bytes → Ordering
bytewise_compare a b = compare_bytes a b

-- The loop `while (diff < min_length && (*start)[diff] == limit[diff]) ++diff`.
first_difference : Bytes → Bytes → ℕ
first_difference [] limit = 0
first_difference (x ∷ start) [] = 0
first_difference (x ∷ start) (y ∷ limit) = if x == y then suc (first_difference start limit) else 0

unfoldable pub bytewise_shortest_separator : Bytes → Bytes → Bytes
unfolding first_difference
bytewise_shortest_separator start limit =
    let min_length = min (length start) (length limit) in
    let diff = first_difference start limit in
    let byte = byte_at start diff in
    if leb min_length diff
    then start
    else if ltb byte 0xff && ltb (byte + 1) (byte_at limit diff)
    then take (diff + 1) (set start diff (byte + 1))
    else start

-- The loop over `i`, on the bytes from `i` on.
unfoldable pub bytewise_short_successor : Bytes → Bytes
bytewise_short_successor [] = []
bytewise_short_successor (byte ∷ key) =
    if not (byte == 0xff) then (byte + 1) ∷ [] else byte ∷ bytewise_short_successor key

-- `bytewise_compare(a, b) >= 0`
abbrev pub at_or_after : Bytes → Bytes → Bool
at_or_after a b = elim (bytewise_compare a b) [ lt ↦ false | eq ↦ true | gt ↦ true ]

unfoldable pub internal_shortest_separator : Bytes → Bytes → Bytes
internal_shortest_separator start limit =
    let start_user = extract_user_key start in
    let limit_user = extract_user_key limit in
    let shortened = bytewise_shortest_separator start_user limit_user in
    if leb (length start_user) (length shortened)
    then start
    else if at_or_after start_user shortened
    then start
    else if at_or_after shortened limit_user
    then start
    else make_internal_key shortened max_sequence_number value_type_for_seek

unfoldable pub internal_short_successor : Bytes → Bytes
internal_short_successor key =
    let user = extract_user_key key in
    let shortened = bytewise_short_successor user in
    if leb (length user) (length shortened)
    then key
    else if at_or_after user shortened
    then key
    else make_internal_key shortened max_sequence_number value_type_for_seek

-- The struct of functions, which travels with the keys it orders.
pub record Comparator : Type 0 where
  pub name : String
  pub min_key_length : ℕ
  pub compare : Bytes → Bytes → Ordering
  pub find_shortest_separator : Bytes → Bytes → Bytes
  pub find_short_successor : Bytes → Bytes

abbrev pub bytewise_comparator : Comparator
bytewise_comparator = record {
  name = "ambar.BytewiseComparator";
  min_key_length = 0;
  compare = bytewise_compare;
  find_shortest_separator = bytewise_shortest_separator;
  find_short_successor = bytewise_short_successor;
}

abbrev pub internal_key_comparator : Comparator
internal_key_comparator = record {
  name = "ambar.InternalKeyComparator";
  min_key_length = 8;
  compare = compare_internal_keys;
  find_shortest_separator = internal_shortest_separator;
  find_short_successor = internal_short_successor;
}
