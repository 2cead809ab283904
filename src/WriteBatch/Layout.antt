-- ===== src/WriteBatch/Layout.antt =====
-- What a batch holds: its bytes as a list of operations.
use ambar.Prelude.{
  ℕ, ◌<◌, ◌^◌, List, [], ◌∷◌, ◌++◌, append_assoc, Bytes, All, length, drop, take-append,
  drop-append, drop-drop, arith, ◌≡◌, refl, ap, ap₂, sym, ◌∙◌,
}
use ambar.Encoding.{store_at, encode_fixed32, encode_fixed64}
use ambar.Encoding.Fixed.{decode-encode_fixed32, decode-encode_fixed64, length-encode_fixed64}
use ambar.Encoding.Prefixed.{prefixed}
use ambar.WriteBatch.{WriteBatch, count, sequence}

pub data Operation : Type 0 where
  insert : Bytes → Bytes → Operation
  remove : Bytes → Operation

abbrev pub record_bytes : Operation → Bytes
record_bytes (insert key val) = 1 ∷ (prefixed key ++ prefixed val)
record_bytes (remove key) = 0 ∷ prefixed key

abbrev pub records : List Operation → Bytes
records [] = []
records (op ∷ ops) = record_bytes op ++ records ops

-- Keys and values have a length that 32 bits hold.
abbrev pub Fits : Operation → Type 0
Fits (insert key val) = (length key < 2 ^ 32) × (length val < 2 ^ 32)
Fits (remove key) = length key < 2 ^ 32

abbrev pub layout : ℕ → List Operation → Bytes
layout seq ops = encode_fixed64 seq ++ (encode_fixed32 (length ops) ++ records ops)

pub record Represents (b : WriteBatch) (seq : ℕ) (ops : List Operation) : Type 0 where
  pub bytes : b ≡ layout seq ops
  pub seq_fits : seq < 2 ^ 64
  pub count_fits : length ops < 2 ^ 32
  pub fields_fit : All Fits ops

pub records-append : (xs ys : List Operation) → records (xs ++ ys) ≡ records xs ++ records ys
records-append [] ys = refl
records-append (x ∷ xs) ys =
    ap (◌++◌ (record_bytes x)) (records-append xs ys)
    ∙ sym (append_assoc (record_bytes x) (records xs) (records ys))

pub length-encode_fixed32 : (n : ℕ) → length (encode_fixed32 n) ≡ 4
unfolding encode_fixed32
length-encode_fixed32 n = refl

pub drop-layout_count :
    (seq : ℕ) (ops : List Operation)
    → drop 8 (layout seq ops) ≡ encode_fixed32 (length ops) ++ records ops
drop-layout_count seq ops =
    drop-append 8 (encode_fixed64 seq) (encode_fixed32 (length ops) ++ records ops)
      (omega (arith, length-encode_fixed64 seq))

pub drop-layout-records : (seq : ℕ) (ops : List Operation) → drop 12 (layout seq ops) ≡ records ops
drop-layout-records seq ops =
    sym (drop-drop 8 4 (layout seq ops))
    ∙ ap (drop 4) (drop-layout_count seq ops)
    ∙ drop-append 4 (encode_fixed32 (length ops)) (records ops)
        (omega (arith, length-encode_fixed32 (length ops)))

-- A store over a field of the same length.
pub store_at-field :
    (xs ys zs ys' : Bytes) (pos : ℕ)
    → pos ≡ length xs
    → length ys' ≡ length ys
    → store_at (xs ++ (ys ++ zs)) pos ys' ≡ xs ++ (ys' ++ zs)
unfolding store_at
store_at-field xs ys zs ys' pos hp hl =
    ap₂ (λ (front back : Bytes). front ++ (ys' ++ back)) (take-append pos xs (ys ++ zs) hp)
      (sym (drop-drop pos (length ys') (xs ++ (ys ++ zs)))
        ∙ ap (drop (length ys')) (drop-append pos xs (ys ++ zs) hp)
        ∙ drop-append (length ys') ys zs hl)

module _ {b : WriteBatch} {seq : ℕ} {ops : List Operation} (r : Represents b seq ops) where
  pub count-Represents : count b ≡ length ops
  unfolding count
  count-Represents =
      rw r.bytes
        (rw drop-layout_count (decode-encode_fixed32 (length ops) (records ops) r.count_fits))

  pub sequence-Represents : sequence b ≡ seq
  unfolding sequence
  sequence-Represents = rw r.bytes (decode-encode_fixed64 seq _ r.seq_fits)
