-- ===== src/Tests/Batch.antt =====
-- write_batch.cpp on a batch of two operations.
use ambar.Prelude.{ℕ, List, some, none, [], ◌∷◌, Bytes, length, arith, ◌≡◌, ◌≢◌, u32}
use ambar.Status.{ok}
use ambar.InternalKey.{ValueType}
use ambar.WriteBatch.{
  WriteBatch, clear, put, del, append, set_sequence, Handler, iterate, insert_into, count,
}
use ambar.WriteBatch.Layout.{Operation, insert, remove, Represents}
use ambar.WriteBatch.Builds.{
  Represents-clear, put-Represents, del-Represents, append-Represents, set_sequence-Represents,
}
use ambar.WriteBatch.Iterates.{calls, iterate-Represents, iterate_total, iterate_sound}
use ambar.WriteBatch.Inserts.{insert_into-Represents}

abbrev one : WriteBatch
one = del clear (97 ∷ [])

abbrev two : WriteBatch
two = put one (98 ∷ []) (1 ∷ 2 ∷ [])

abbrev two_operations : List Operation
two_operations = remove (97 ∷ []) ∷ (insert (98 ∷ []) (1 ∷ 2 ∷ []) ∷ [])

-- A handler that keeps what it is called with, the last call first.
abbrev recorder : Handler (List Operation)
recorder = record { on_put = λ key val s. insert key val ∷ s; on_del = λ key s. remove key ∷ s }

-- A memtable that keeps the sequence numbers and the keys.
abbrev note : ℕ → ValueType → Bytes → Bytes → List (ℕ × Bytes) → List (ℕ × Bytes)
note seq kind key val m = (seq, key) ∷ m

del-Represents_example : Represents one 0 (remove (97 ∷ []) ∷ [])
del-Represents_example = del-Represents Represents-clear (omega arith) (97 ∷ []) (omega arith)

one-Represents : Represents one 0 (remove (97 ∷ []) ∷ [])
one-Represents = del-Represents Represents-clear (omega arith) (97 ∷ []) (omega arith)

put-Represents_example : Represents two 0 two_operations
put-Represents_example =
    put-Represents one-Represents (omega arith) (98 ∷ []) (1 ∷ 2 ∷ []) (omega arith) (omega arith)

two-Represents : Represents two 0 two_operations
two-Represents =
    put-Represents one-Represents (omega arith) (98 ∷ []) (1 ∷ 2 ∷ []) (omega arith) (omega arith)

append-Represents_example : Represents (append one two) 0 (remove (97 ∷ []) ∷ two_operations)
append-Represents_example = append-Represents one-Represents two-Represents (omega arith)

iterate-Represents_example :
    iterate recorder two [] ≡ some (ok, insert (98 ∷ []) (1 ∷ 2 ∷ []) ∷ (remove (97 ∷ []) ∷ []))
iterate-Represents_example = iterate-Represents recorder two 0 two_operations [] two-Represents

iterate_total_example : iterate recorder (7 ∷ 7 ∷ []) [] ≢ none
iterate_total_example = iterate_total recorder (7 ∷ 7 ∷ []) []

iterated :
    iterate recorder two [] ≡ some (ok, insert (98 ∷ []) (1 ∷ 2 ∷ []) ∷ (remove (97 ∷ []) ∷ []))
iterated = iterate-Represents recorder two 0 two_operations [] two-Represents

iterate_sound_example :
    (ops : List Operation) × (calls recorder ops []
      ≡ insert (98 ∷ []) (1 ∷ 2 ∷ []) ∷ (remove (97 ∷ []) ∷ []))
    × (u32 (length ops) ≡ count two)
iterate_sound_example =
    iterate_sound recorder two [] (insert (98 ∷ []) (1 ∷ 2 ∷ []) ∷ (remove (97 ∷ []) ∷ [])) iterated

insert_into-Represents_example :
    insert_into note (set_sequence two 41) []
    ≡ some (ok, (43, (42, 98 ∷ []) ∷ ((41, 97 ∷ []) ∷ [])))
insert_into-Represents_example =
    insert_into-Represents note (set_sequence two 41) 41 two_operations []
      (set_sequence-Represents 41 two-Represents (omega arith)) (omega arith)
