-- ===== src/Block/Reads.antt =====
-- block.cpp: an iterator over a block that a builder made finds the entries again.
use native.Mathlib.Nat.{mod-eq_of_lt}
use ambar.Prelude.{
  ℕ, ◌+◌, ◌-◌, ◌≤◌, ◌<◌, ◌^◌, true, false, some, List, [], ◌∷◌, ◌++◌, append_assoc, Bytes, length,
  length-append, length-drop, take, drop, take-append, drop-append, ltb, leb, arith, ◌≡◌, refl, ap,
  sym, ◌∙◌, le→ltb, take-append-drop, All, drop-drop, le→leb, lt→ltb,
}
use ambar.Encoding.Varint.{groups}
use ambar.BlockBuilder.Chain.{entry_bytes, length-entry_bytes, Fits, Holds}
use ambar.Block.{
  Entry, decode_entry, Comparator, Iter, parse_next_entry, take_entry, next_entry_offset,
  step_index, ok, value, valid,
}
use ambar.Block.Decode.{entry_of, decode-entry_bytes}

-- What stands before an entry's value.
entry_head : ℕ → Bytes → ℕ → Bytes
entry_head shared key n =
    groups 4 shared ++ (groups 4 (length key - shared) ++ (groups 4 n ++ drop shared key))

entry_split :
    (shared : ℕ) (key val : Bytes)
    → entry_bytes shared key val ≡ entry_head shared key (length val) ++ val
unfolding entry_bytes entry_head
entry_split shared key val = simp append_assoc refl

length-entry_head :
    (shared : ℕ) (key : Bytes) (n : ℕ) → length key - shared ≤ length (entry_head shared key n)
unfolding entry_head
length-entry_head shared key n = omega (
  arith,
  length-append (groups 4 shared)
      (groups 4 (length key - shared) ++ (groups 4 n ++ drop shared key)),
  length-append (groups 4 (length key - shared)) (groups 4 n ++ drop shared key),
  length-append (groups 4 n) (drop shared key),
  length-drop shared key,
)

-- An entry that the builder may have put, with a key that the comparator reads.
abbrev pub IsReadable : Comparator → Bytes × Bytes → Type 0
IsReadable comparator e = Fits e × (comparator.min_key_length ≤ length e.0)

pub readable-Fits :
    (comparator : Comparator) (es : List (Bytes × Bytes))
    → All (IsReadable comparator) es
    → All Fits es
readable-Fits comparator [] h = tt
readable-Fits comparator (e ∷ es) (h, hs) = (h.0, readable-Fits comparator es hs)

module _ (comparator : Comparator) (stray : ℕ) where
  -- The iterator stands before these entries.
  pub record Before (it : Iter) (es : List (Bytes × Bytes)) : Type 0 where
    pub left : Bytes
    pub tail : Bytes
    pub holds : Holds it.key left es
    pub split : drop (next_entry_offset it) it.bytes ≡ left ++ tail
    pub size : next_entry_offset it + length left ≡ it.restart_offset
    pub small : it.restart_offset < 2 ^ 32
    pub readable : All (IsReadable comparator) es
    pub fine : it.status ≡ ok

  parse_decoded :
      (it : Iter) (e : Entry)
      → next_entry_offset it < it.restart_offset
      → decode_entry
          (take (it.restart_offset - next_entry_offset it) (drop (next_entry_offset it) it.bytes))
        ≡ some e
      → parse_next_entry comparator stray it
        ≡ take_entry comparator stray (record it { current = next_entry_offset it }) e
  unfolding parse_next_entry
  parse_decoded it e less found =
      let more : leb it.restart_offset (next_entry_offset it) ≡ false = ground arith in
      rw (more, found) refl

  -- The iterator with an entry taken.
  entered : Iter → ℕ → Bytes → ℕ → ℕ → Iter
  entered it current key start n =
      let at = record it { current = current; key = key; value_start = start; value_length = n } in
      record at { restart_index = step_index it.num_restarts at it.restart_index }

  take-entered :
      (it : Iter) (current shared : ℕ) (key val rest : Bytes) (start : ℕ)
      → shared ≤ length it.key
      → shared ≤ length key
      → take shared it.key ≡ take shared key
      → comparator.min_key_length ≤ length key
      → (it.restart_offset - length (drop shared key ++ (val ++ rest))) + (length key - shared)
        ≡ start
      → take_entry comparator stray (record it { current = current }) (entry_of shared key val rest)
        ≡ (true, entered it current key start (length val))
  unfolding take_entry entered
  take-entered it current shared key val rest start hp hk same long at =
      let prefix : ltb (length it.key) shared ≡ false = le→ltb (length it.key) shared hp in
      let whole : take shared it.key
            ++ take (length key - shared) (drop shared key ++ (val ++ rest))
          ≡ key =
        ap (λ (bs : Bytes). bs ++ take (length key - shared) (drop shared key ++ (val ++ rest)))
          same
        ∙ ap (λ (bs : Bytes). take shared key ++ bs)
            (take-append (length key - shared) (drop shared key) (val ++ rest)
              (sym (length-drop shared key)))
        ∙ take-append-drop shared key in
      let enough : ltb (length key) comparator.min_key_length ≡ false = le→ltb _ _ long in
      rw (prefix, whole, enough, at) refl

  -- A byte is left while there is an entry.
  entry_left :
      (shared : ℕ) (key val rest left : Bytes)
      → left ≡ entry_bytes shared key val ++ rest
      → 3 ≤ length left
  entry_left shared key val rest left e = omega (
    arith,
    ap (λ (bs : Bytes). length bs) e,
    length-append (entry_bytes shared key val) rest,
    length-entry_bytes shared key val,
  )

  -- One entry is read, and the iterator stands before the others.
  pub parse-Before :
      (it : Iter) (key val : Bytes) (es : List (Bytes × Bytes))
      → Before it ((key, val) ∷ es)
      → (it' : Iter) × (parse_next_entry comparator stray it ≡ (true, it'))
        × (it'.key ≡ key)
        × (value it' ≡ val)
        × (valid it' ≡ true)
        × Before it' es
  unfolding value next_entry_offset entered
  parse-Before it key val es b =
      let (shared, rest, hp, hk, same, bytes, more) = b.holds in
      let ((fits, long), others) = b.readable in
      let offset = next_entry_offset it in
      let head = entry_head shared key (length val) in
      let left = b.left in
      let some_left = entry_left shared key val rest left bytes in
      let before : offset < it.restart_offset = omega (arith, b.size) in
      let region : take (it.restart_offset - offset) (drop offset it.bytes) ≡ left =
        ap (take (it.restart_offset - offset)) b.split
        ∙ take-append (it.restart_offset - offset) left b.tail (omega (arith, b.size)) in
      let decoded : decode_entry (take (it.restart_offset - offset) (drop offset it.bytes))
          ≡ some (entry_of shared key val rest) =
        ap decode_entry (region ∙ bytes)
        ∙ decode-entry_bytes shared key val rest (omega (arith, fits.0)) fits.0 fits.1 in
      let parts : left ≡ head ++ (val ++ rest) =
        bytes
        ∙ ap (λ (bs : Bytes). bs ++ rest) (entry_split shared key val)
        ∙ append_assoc head val rest in
      let sizes : length left ≡ length head + (length val + length rest) = omega (
        arith,
        ap (λ (bs : Bytes). length bs) parts,
        length-append head (val ++ rest),
        length-append val rest,
      ) in
      let start : ℕ = offset + length head in
      let at : (it.restart_offset - length (drop shared key ++ (val ++ rest)))
            + (length key - shared)
          ≡ start =
        omega (
          arith,
          b.size,
          length-entry_head shared key (length val),
          length-append (drop shared key) (val ++ rest),
          length-append val rest,
          length-drop shared key,
        ) in
      let behind : drop start it.bytes ≡ val ++ (rest ++ b.tail) =
        sym (drop-drop offset (length head) it.bytes)
        ∙ ap (drop (length head)) (
            b.split
            ∙ ap (λ (bs : Bytes). bs ++ b.tail) parts
            ∙ append_assoc head (val ++ rest) b.tail)
        ∙ drop-append (length head) head ((val ++ rest) ++ b.tail) refl
        ∙ append_assoc val rest b.tail in
      let fits' : start + length val < 2 ^ 32 = omega (arith, b.size, b.small) in
      (
        entered it offset key start (length val),
        parse_decoded it (entry_of shared key val rest) before decoded
            ∙ take-entered it offset shared key val rest start hp hk same long at,
        refl,
        ap (take (length val)) behind ∙ take-append (length val) val (rest ++ b.tail) refl,
        lt→ltb offset it.restart_offset before,
        record {
          left = rest;
          tail = b.tail;
          holds = more;
          split = rw (mod-eq_of_lt fits') (
              sym (drop-drop start (length val) it.bytes)
              ∙ ap (drop (length val)) behind
              ∙ drop-append (length val) val (rest ++ b.tail) refl);
          size = rw (mod-eq_of_lt fits') (omega (arith, b.size));
          small = b.small;
          readable = others;
          fine = b.fine;
        },
      )

  pub parse-Before_end :
      (it : Iter)
      → Before it []
      → (it' : Iter) × (parse_next_entry comparator stray it ≡ (false, it'))
        × (valid it' ≡ false)
        × (it'.status ≡ ok)
  unfolding parse_next_entry
  parse-Before_end it b =
      let at_end : leb it.restart_offset (next_entry_offset it) ≡ true =
        le→leb _ _ (omega (arith, b.size, ap (λ (bs : Bytes). length bs) b.holds)) in
      (
        record it { current = it.restart_offset; restart_index = it.num_restarts },
        rw at_end refl,
        ground arith,
        b.fine,
      )
