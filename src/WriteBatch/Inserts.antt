-- ===== src/WriteBatch/Inserts.antt =====
-- What `insert_into` makes of a memtable: the operations under consecutive sequence numbers.
use ambar.Prelude.{ℕ, ◌+◌, ◌<◌, ◌^◌, some, List, [], ◌∷◌, Bytes, length, arith, ◌≡◌, ap, ◌∙◌}
use ambar.Status.{ok}
use ambar.InternalKey.{ValueType, value, deletion}
use ambar.WriteBatch.{WriteBatch, inserter, insert_into, sequence}
use ambar.WriteBatch.Layout.{Operation, insert, remove, Represents, sequence-Represents}
use ambar.WriteBatch.Iterates.{calls, iterate-Represents}

module _ {M : Type 0} (add : ℕ → ValueType → Bytes → Bytes → M → M) where
  -- The memtable with the operations added one by one, from a sequence number on.
  abbrev pub added : ℕ → List Operation → M → M
  added seq [] m = m
  added seq (insert key val ∷ ops) m = added (seq + 1) ops (add seq value key val m)
  added seq (remove key ∷ ops) m = added (seq + 1) ops (add seq deletion key [] m)

  calls-inserter :
      (ops : List Operation) (seq : ℕ) (m : M)
      → seq + length ops < 2 ^ 64
      → calls (inserter add) ops (seq, m) ≡ (seq + length ops, added seq ops m)
  calls-inserter [] seq m h = ground arith
  calls-inserter (insert key val ∷ ops) seq m h =
      ground (arith, calls-inserter ops (seq + 1) (add seq value key val m))
  calls-inserter (remove key ∷ ops) seq m h =
      ground (arith, calls-inserter ops (seq + 1) (add seq deletion key [] m))

  -- Inserting a batch that holds some operations into a memtable succeeds: it adds the i-th
  -- operation under the batch's sequence + i, in order, and ends at the first sequence number
  -- behind them, where that number has 64 bits.
  pub insert_into-Represents :
      (b : WriteBatch) (seq : ℕ) (ops : List Operation) (m : M)
      → Represents b seq ops
      → seq + length ops < 2 ^ 64
      → insert_into add b m ≡ some (ok, (seq + length ops, added seq ops m))
  unfolding insert_into
  insert_into-Represents b seq ops m r h =
      iterate-Represents (inserter add) b seq ops (sequence b, m) r
      ∙ ap (λ (n : ℕ). some (ok, calls (inserter add) ops (n, m))) (sequence-Represents r)
      ∙ ap (λ (p : ℕ × M). some (ok, p)) (calls-inserter ops seq m h)
