-- ===== src/WriteBatch/Iterates.antt =====
-- What `iterate` makes of a batch.
use native.Mathlib.Nat.{mod-eq_of_lt}
use Prim.Native.String.{String}
use ambar.Prelude.{
  ℕ, zero, suc, ◌+◌, ◌≤◌, ◌<◌, ◌^◌, u32, none, some, Option-cases, List, [], ◌∷◌, ◌++◌,
  append_assoc, Bytes, All, length, length-append, length-drop, drop, arith, ◌≡◌, ◌≢◌, refl, ap,
  ◌∙◌, inl, inr, ◌⊎◌,
}
use ambar.Encoding.{get_length_prefixed, encode_fixed32, encode_fixed64}
use ambar.Encoding.Fixed.{length-encode_fixed64}
use ambar.Encoding.Prefixed.{prefixed, get-prefixed, get_length_prefixed_shrinks}
use ambar.InternalKey.{ValueType, value, deletion, other, to_value_type}
use ambar.Status.{ok}
use ambar.WriteBatch.{
  WriteBatch, count, header_size, Handler, Walk, finished, failed, unfinished, iterate_loop,
  conclude, iterate,
}
use ambar.WriteBatch.Layout.{
  Operation, insert, remove, record_bytes, records, Fits, layout, Represents, length-encode_fixed32,
  count-Represents, drop-layout-records,
}

ValueType-cases : (k : ValueType) → (k ≡ value) ⊎ ((k ≡ deletion) ⊎ ((n : ℕ) × (k ≡ other n)))
ValueType-cases value = inl refl
ValueType-cases deletion = inr (inl refl)
ValueType-cases (other n) = inr (inr (n, refl))

Walk-cases :
    {S : Type 0} (w : Walk S)
    → ((n : ℕ) × (t : S) × (w ≡ finished n t))
      ⊎ (((message : String) × (t : S) × (w ≡ failed message t)) ⊎ (w ≡ unfinished))
Walk-cases (finished n t) = inl (n, t, refl)
Walk-cases (failed message t) = inr (inl (message, t, refl))
Walk-cases unfinished = inr (inr refl)

length-record_bytes : (op : Operation) → 1 ≤ length (record_bytes op)
length-record_bytes (insert key val) = omega arith
length-record_bytes (remove key) = omega arith

length-layout :
    (seq : ℕ) (ops : List Operation) → length (layout seq ops) ≡ 12 + length (records ops)
length-layout seq ops = omega (
  arith,
  length-append (encode_fixed64 seq) (encode_fixed32 (length ops) ++ records ops),
  length-append (encode_fixed32 (length ops)) (records ops),
  length-encode_fixed64 seq,
  length-encode_fixed32 (length ops),
)

module _ {S : Type 0} (handler : Handler S) where
  -- The handler's calls, in order.
  abbrev pub call : Operation → S → S
  call (insert key val) s = handler.on_put key val s
  call (remove key) s = handler.on_del key s

  abbrev pub calls : List Operation → S → S
  calls [] s = s
  calls (op ∷ ops) s = calls ops (call op s)

  iterate_round :
      (fuel : ℕ) (op : Operation) (rest : Bytes) (found : ℕ) (s : S)
      → Fits op
      → iterate_loop handler (suc fuel) (record_bytes op ++ rest) found s
        ≡ iterate_loop handler fuel rest (u32 (found + 1)) (call op s)
  unfolding iterate_loop
  iterate_round fuel (insert key val) rest found s (hk, hv) =
      rw
        (
          append_assoc (prefixed key) (prefixed val) rest,
          get-prefixed key (prefixed val ++ rest) hk,
          get-prefixed val rest hv,
          iterate_loop,
        )
        refl
  iterate_round fuel (remove key) rest found s hk = rw (get-prefixed key rest hk, iterate_loop) refl

  iterate_loop-records :
      (ops : List Operation) (fuel found : ℕ) (s : S)
      → All Fits ops
      → length (records ops) ≤ fuel
      → found + length ops < 2 ^ 32
      → iterate_loop handler fuel (records ops) found s
        ≡ finished (found + length ops) (calls ops s)
  iterate_loop-records [] fuel found s h hf hc =
      unfold iterate_loop in ap (λ (n : ℕ). finished n s) (omega arith)
  iterate_loop-records (op ∷ ops) zero found s h hf hc =
      absurd (omega (arith, length-append (record_bytes op) (records ops), length-record_bytes op))
  iterate_loop-records (op ∷ ops) (suc fuel) found s (hop, h) hf hc =
      iterate_round fuel op (records ops) found s hop
      ∙ ap (λ (n : ℕ). iterate_loop handler fuel (records ops) n (call op s))
          (mod-eq_of_lt (omega arith))
      ∙ iterate_loop-records ops fuel (found + 1) (call op s) h
          (omega (arith, length-append (record_bytes op) (records ops), length-record_bytes op))
          (omega arith)
      ∙ ap (λ (n : ℕ). finished n (calls ops (call op s))) (omega arith)

  -- On a batch that holds some operations, iterate succeeds, and calls the handler with each of
  -- them, in order.
  pub iterate-Represents :
      (b : WriteBatch) (seq : ℕ) (ops : List Operation) (s : S)
      → Represents b seq ops
      → iterate handler b s ≡ some (ok, calls ops s)
  unfolding iterate conclude
  iterate-Represents b seq ops s r = ground (
    arith,
    length-layout seq ops,
    count-Represents r,
    drop-layout-records seq ops,
    iterate_loop-records ops (length (layout seq ops)) 0 s r.fields_fit,
  )

  -- The loop of `iterate` does not use up its fuel, on any bytes.
  iterate_loop-ne-unfinished :
      (fuel : ℕ) (input : Bytes) (found : ℕ) (s : S)
      → length input ≤ fuel
      → iterate_loop handler fuel input found s ≢ unfinished
  unfolding iterate_loop
  iterate_loop-ne-unfinished fuel [] found s h = λ e. cc
  iterate_loop-ne-unfinished zero (tag ∷ input) found s h = absurd (omega arith)
  iterate_loop-ne-unfinished (suc fuel) (tag ∷ input) found s h =
      elim (Option-cases (get_length_prefixed input)) [
        | inl none_left ↦ ground arith
        | inr ((key, behind), first) ↦ elim (Option-cases (get_length_prefixed behind)) [
          | inl none_left ↦ ground (
            arith,
            get_length_prefixed_shrinks input key behind first,
            iterate_loop-ne-unfinished fuel behind (u32 (found + 1)) (handler.on_del key s),
          )
          | inr ((val, rest), second) ↦ ground (
            arith,
            get_length_prefixed_shrinks input key behind first,
            get_length_prefixed_shrinks behind val rest second,
            iterate_loop-ne-unfinished fuel behind (u32 (found + 1)) (handler.on_del key s),
            iterate_loop-ne-unfinished fuel rest (u32 (found + 1)) (handler.on_put key val s),
          )
        ]
      ]

  -- On any bytes and with any handler, the loop of iterate ends within as many rounds as the batch
  -- has bytes.
  pub iterate_total : (b : WriteBatch) (s : S) → iterate handler b s ≢ none
  unfolding iterate conclude
  iterate_total b s = ground (
    arith,
    iterate_loop-ne-unfinished (length b) (drop header_size b) 0 s
        (omega (arith, length-drop header_size b)),
  )

  -- A walk that finishes has called the handler with some operations, and counted them.
  iterate_loop_sound :
      (fuel : ℕ) (input : Bytes) (found : ℕ) (s : S) (n : ℕ) (t : S)
      → found < 2 ^ 32
      → iterate_loop handler fuel input found s ≡ finished n t
      → (ops : List Operation) × (calls ops s ≡ t) × (u32 (found + length ops) ≡ n)
  unfolding iterate_loop
  iterate_loop_sound fuel [] found s n t hf e = ([], ground arith, ground arith)
  iterate_loop_sound zero (tag ∷ input) found s n t hf e = absurd (cc)
  iterate_loop_sound (suc fuel) (tag ∷ input) found s n t hf e =
      elim (ValueType-cases (to_value_type tag)) [
        | inl is_value ↦ elim (Option-cases (get_length_prefixed input)) [
          | inl refused ↦ absurd (ground arith)
          | inr ((key, behind), first) ↦ elim (Option-cases (get_length_prefixed behind)) [
            | inl refused ↦ absurd (ground arith)
            | inr ((val, rest), second) ↦
                let (ops, called, counted) =
                  iterate_loop_sound fuel rest (u32 (found + 1)) (handler.on_put key val s) n t
                    (omega arith) (ground arith) in
                (insert key val ∷ ops, called, omega arith)
          ]
        ]
        | inr (inl is_deletion) ↦ elim (Option-cases (get_length_prefixed input)) [
          | inl refused ↦ absurd (ground arith)
          | inr ((key, behind), first) ↦
              let (ops, called, counted) =
                iterate_loop_sound fuel behind (u32 (found + 1)) (handler.on_del key s) n t
                  (omega arith) (ground arith) in
              (remove key ∷ ops, called, omega arith)
        ]
        | inr (inr (m, is_other)) ↦ absurd (ground arith)
      ]

  -- On any bytes: where iterate succeeds, the handler was called with some operations, in order,
  -- and 32 bits of their number are the count in the header.
  pub iterate_sound :
      (b : WriteBatch) (s t : S)
      → iterate handler b s ≡ some (ok, t)
      → (ops : List Operation) × (calls ops s ≡ t) × (u32 (length ops) ≡ count b)
  unfolding iterate conclude
  iterate_sound b s t e =
      elim (Walk-cases (iterate_loop handler (length b) (drop header_size b) 0 s)) [
        | inl (n, u, walked) ↦
            let (ops, called, counted) =
              iterate_loop_sound (length b) (drop header_size b) 0 s n u (omega arith) walked in
            (ops, ground arith, ground arith)
        | inr (inl (message, u, walked)) ↦ absurd (ground arith)
        | inr (inr walked) ↦ absurd (ground arith)
      ]
