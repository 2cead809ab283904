-- ===== src/WriteBatch/Builds.antt =====
-- What the writing operations make of a batch's layout.
use native.Mathlib.Nat.{mod-eq_of_lt}
use ambar.Prelude.{
  ℕ, ◌+◌, ◌<◌, ◌^◌, u32, List, [], ◌∷◌, ◌++◌, append-nil, append_assoc, Bytes, All-append, length,
  length-append, arith, ◌≡◌, refl,
}
use ambar.Encoding.{encode_fixed32, encode_fixed64}
use ambar.Encoding.Fixed.{length-encode_fixed64}
use ambar.Encoding.Prefixed.{put_length_prefixed-prefixed}
use ambar.WriteBatch.{WriteBatch, clear, count, set_count, set_sequence, put, del, append}
use ambar.WriteBatch.Layout.{
  Operation, insert, remove, records, records-append, Fits, layout, Represents,
  length-encode_fixed32, store_at-field, count-Represents, drop-layout-records,
}

-- A cleared batch is empty, with sequence 0.
pub Represents-clear : Represents clear 0 []
unfolding clear encode_fixed64 encode_fixed32
Represents-clear = record {
  bytes = refl;
  seq_fits = omega arith;
  count_fits = omega arith;
  fields_fit = tt;
}

set_count-layout :
    (seq n : ℕ) (ops : List Operation)
    → set_count (layout seq ops) n ≡ encode_fixed64 seq ++ (encode_fixed32 n ++ records ops)
unfolding set_count
set_count-layout seq n ops =
    store_at-field (encode_fixed64 seq) (encode_fixed32 (length ops)) (records ops)
      (encode_fixed32 n) 8 (omega (arith, length-encode_fixed64 seq))
      (omega (arith, length-encode_fixed32 n, length-encode_fixed32 (length ops)))

ruleset layout_laws = (append_assoc, records-append, append-nil, length-append)

module _ {b : WriteBatch} {seq : ℕ} {ops : List Operation} (r : Represents b seq ops)
    (room : length ops + 1 < 2 ^ 32) where
  counted :
      set_count b (u32 (count b + 1))
      ≡ encode_fixed64 seq ++ (encode_fixed32 (length ops + 1) ++ records ops)
  counted =
      rw (count-Represents r, mod-eq_of_lt room, r.bytes)
        (set_count-layout seq (length ops + 1) ops)

  -- On a batch that holds some operations, put adds one insertion behind them and counts it, if 32
  -- bits hold the count, the key's length and the value's.
  pub put-Represents :
      (key val : Bytes)
      → length key < 2 ^ 32
      → length val < 2 ^ 32
      → Represents (put b key val) seq (ops ++ (insert key val ∷ []))
  unfolding put
  put-Represents key val hk hv = record {
    bytes =
        rw (counted, put_length_prefixed-prefixed _ key hk, put_length_prefixed-prefixed _ val hv)
          (simp layout_laws);
    seq_fits = r.seq_fits;
    count_fits = omega (arith, length-append {0} ops (insert key val ∷ []));
    fields_fit = All-append Fits ops (insert key val ∷ []) r.fields_fit ((hk, hv), tt);
  }

  -- On a batch that holds some operations, del adds one removal behind them and counts it, if 32
  -- bits hold the count and the key's length.
  pub del-Represents :
      (key : Bytes) → length key < 2 ^ 32 → Represents (del b key) seq (ops ++ (remove key ∷ []))
  unfolding del
  del-Represents key hk = record {
    bytes = rw (counted, put_length_prefixed-prefixed _ key hk) (simp layout_laws);
    seq_fits = r.seq_fits;
    count_fits = omega (arith, length-append {0} ops (remove key ∷ []));
    fields_fit = All-append Fits ops (remove key ∷ []) r.fields_fit (hk, tt);
  }

-- Where two batches hold operations, append makes a batch that holds those of the first and then
-- those of the second, under the first one's sequence, if 32 bits hold the count of all.
pub append-Represents :
    {b c : WriteBatch} {seq seq' : ℕ} {ops ops' : List Operation}
    → Represents b seq ops
    → Represents c seq' ops'
    → length ops + length ops' < 2 ^ 32
    → Represents (append b c) seq (ops ++ ops')
unfolding append
append-Represents {b} {c} {seq} {seq'} {ops} {ops'} r q room = record {
  bytes =
      rw
        (
          count-Represents r,
          count-Represents q,
          mod-eq_of_lt room,
          r.bytes,
          q.bytes,
          set_count-layout,
          drop-layout-records,
        )
        (simp layout_laws);
  seq_fits = r.seq_fits;
  count_fits = omega (arith, length-append {0} ops ops');
  fields_fit = All-append Fits ops ops' r.fields_fit q.fields_fit;
}

-- On a batch that holds some operations, set_sequence makes a batch that holds the same under the
-- sequence given, if that has 64 bits.
pub set_sequence-Represents :
    {b : WriteBatch} {seq : ℕ} {ops : List Operation} (seq' : ℕ)
    → Represents b seq ops
    → seq' < 2 ^ 64
    → Represents (set_sequence b seq') seq' ops
unfolding set_sequence
set_sequence-Represents {b} {seq} {ops} seq' r fits = record {
  bytes = rw r.bytes (
      store_at-field [] (encode_fixed64 seq) (encode_fixed32 (length ops) ++ records ops)
        (encode_fixed64 seq') 0 refl
        (omega (arith, length-encode_fixed64 seq, length-encode_fixed64 seq')));
  seq_fits = fits;
  count_fits = r.count_fits;
  fields_fit = r.fields_fit;
}
