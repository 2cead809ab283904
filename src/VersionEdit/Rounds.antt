-- ===== src/VersionEdit/Rounds.antt =====
-- version_edit.cpp: each round of `decode_from` leaves an edit that a record can hold.
use ambar.Prelude.{
  ℕ, ◌^◌, ◌≤◌, ◌<◌, true, false, ◌||◌, Option, none, some, List, [], ◌∷◌, Bytes, length, All,
  All-append, ltb, if◌then◌else◌, Bool-cases, Option-cases, inl, inr, arith, ◌≡◌, refl,
}
use ambar.Encoding.{get_varint32, get_varint64, get_length_prefixed}
use ambar.Encoding.Prefixed.{get_length_prefixed-fits}
use ambar.Encoding.Reading.{get_varint32_takes, get_varint64_takes}
use Prim.Native.String.{String}
use ambar.VersionEdit.{
  VersionEdit, pair_before, set_insert, Tag, comparator_tag, log_number_tag, prev_log_number_tag,
  next_file_number_tag, last_sequence_tag, compact_pointer_tag, deleted_file_tag, new_file_tag,
  unknown_tag, file_meta, set_comparator_name, remove_file, add_file, set_compact_pointer,
  set_log_number, set_prev_log_number, set_next_file, set_last_sequence,
}
use ambar.VersionEdit.Decoding.{
  get_level, Round, went, failed, decode_number, decode_name, decode_pointer, decode_deleted,
  decode_new, decode_field,
}
use ambar.VersionEdit.Stored.{
  IsLevel, IsKey, IsMeta, IsPointer, IsDeleted, IsNew, IsAhead, IsOrdered, none_left, first_of,
  IsStored,
}

get_level-IsLevel :
    (input : Bytes) (level : ℕ) (rest : Bytes)
    → get_level input ≡ some (level, rest)
    → IsLevel level × (length rest ≤ length input)
unfolding get_level
get_level-IsLevel input level rest e = elim (Option-cases (get_varint32 input)) [
  | inl gone ↦ ground arith
  | inr ((value, behind), read) ↦ ground (arith, get_varint32_takes input value behind)
]

-- Insertion into an ordered list.
pair_before_trans :
    (a b c : ℕ × ℕ) → pair_before a b ≡ true → pair_before b c ≡ true → pair_before a c ≡ true
pair_before_trans a b c h h' = ground arith

IsAhead-trans :
    (a b : ℕ × ℕ) (bs : List (ℕ × ℕ)) → pair_before a b ≡ true → IsAhead bs b → IsAhead bs a
IsAhead-trans a b [] h hs = tt
IsAhead-trans a b (c ∷ bs) h (h', hs) = (pair_before_trans a b c h h', IsAhead-trans a b bs h hs)

All-set_insert :
    (P : ℕ × ℕ → Type 0) (a : ℕ × ℕ) (bs : List (ℕ × ℕ)) → P a → All P bs → All P (set_insert a bs)
unfolding set_insert
All-set_insert P a [] h hs = (h, tt)
All-set_insert P a (b ∷ bs) h hs = elim (Bool-cases (pair_before a b)) [
  | inl first ↦ rw first (h, hs)
  | inr later ↦ elim (Bool-cases (pair_before b a)) [
    | inl behind ↦ rw (later, behind) (hs.0, All-set_insert P a bs h hs.1)
    | inr same ↦ rw (later, same) hs
  ]
]

set_insert-IsOrdered : (a : ℕ × ℕ) (bs : List (ℕ × ℕ)) → IsOrdered bs → IsOrdered (set_insert a bs)
unfolding set_insert
set_insert-IsOrdered a [] h = first_of a [] tt none_left
set_insert-IsOrdered a (b ∷ bs) (first_of b' bs' ahead h) = elim (Bool-cases (pair_before a b)) [
  | inl first ↦
      rw first
        (first_of a (b ∷ bs) (first, IsAhead-trans a b bs first ahead) (first_of b bs ahead h))
  | inr later ↦ elim (Bool-cases (pair_before b a)) [
    | inl behind ↦
        rw (later, behind)
          (first_of b (set_insert a bs)
            (All-set_insert (λ c. pair_before b c ≡ true) a bs behind ahead)
            (set_insert-IsOrdered a bs h))
    | inr same ↦ rw (later, same) (first_of b bs ahead h)
  ]
]

-- What a round may leave of an input: no more of it, and a stored edit.
pub data IsRound (input : Bytes) : Round → Type 0 where
  it_went :
      (rest : Bytes) (e : VersionEdit)
      → length rest ≤ length input
      → IsStored e
      → IsRound input (went rest e)
  it_failed : (what : String) → IsRound input (failed what)

-- What follows a reader, where the reader refuses and where it reads.
module _ {A : Type 0} (input : Bytes) (what : String) (k : A → Bytes → Round) where
  IsRound-read :
      (read : Option (A × Bytes))
      → ((x : A) (rest : Bytes) → read ≡ some (x, rest) → IsRound input (k x rest))
      → IsRound input (elim read [ none ↦ failed what | some (x, rest) ↦ k x rest ])
  IsRound-read none h = it_failed what
  IsRound-read (some (x, rest)) h = h x rest refl

decode_number-IsRound :
    (what : String) (set : ℕ → VersionEdit) (input : Bytes)
    → ((n : ℕ) → n < 2 ^ 64 → IsStored (set n))
    → IsRound input (decode_number what set input)
decode_number-IsRound what set input stored =
    IsRound-read input what (λ n rest. went rest (set n)) (get_varint64 input)
      (λ n rest read.
        let (fits, less, _) = get_varint64_takes input n rest read in
        it_went rest (set n) (omega arith) (stored n fits))

decode_name-IsRound :
    (e : VersionEdit) (input : Bytes) → IsStored e → IsRound input (decode_name e input)
decode_name-IsRound e input (name_stored, log, prev, next, seq, pointers, deleted, files) =
    IsRound-read input "comparator name" (λ name rest. went rest (set_comparator_name e name))
      (get_length_prefixed input)
      (λ name rest read.
        let (fits, less) = get_length_prefixed-fits input name rest read in
        it_went rest (set_comparator_name e name) less
          ((fits, inl refl), log, prev, next, seq, pointers, deleted, files))

decode_deleted-IsRound :
    (e : VersionEdit) (input : Bytes) → IsStored e → IsRound input (decode_deleted e input)
decode_deleted-IsRound e input (name, log, prev, next, seq, pointers, (deleted, ordered), files) =
    IsRound-read input "deleted file"
      (λ level input₁. elim (get_varint64 input₁) [
        | none ↦ failed "deleted file"
        | some (number, rest) ↦ went rest (remove_file e level number)
      ])
      (get_level input)
      (λ level input₁ at.
        IsRound-read input "deleted file" (λ n rest. went rest (remove_file e level n))
          (get_varint64 input₁)
          (λ n rest read.
            let (is_level, less) = get_level-IsLevel input level input₁ at in
            let (fits, less₁, _) = get_varint64_takes input₁ n rest read in
            it_went rest (remove_file e level n) (omega arith) (
              name,
              log,
              prev,
              next,
              seq,
              pointers,
              (
                All-set_insert IsDeleted (level, n) e.deleted_files (is_level, fits) deleted,
                set_insert-IsOrdered (level, n) e.deleted_files ordered,
              ),
              files,
            )))

long_enough : (key : Bytes) → length key < 2 ^ 32 → ltb (length key) 8 ≡ false → IsKey key
long_enough key fits long = (ground arith, fits)

decode_pointer-IsRound :
    (e : VersionEdit) (input : Bytes) → IsStored e → IsRound input (decode_pointer e input)
decode_pointer-IsRound e input (name, log, prev, next, seq, pointers, deleted, files) =
    IsRound-read input "compaction pointer" _ (get_level input) (λ level input₁ at.
      IsRound-read input "compaction pointer" _ (get_length_prefixed input₁) (λ key rest read.
        let (is_level, less) = get_level-IsLevel input level input₁ at in
        let (fits, less₁) = get_length_prefixed-fits input₁ key rest read in
        elim (Bool-cases (ltb (length key) 8)) [
          | inl short ↦
              rw short (it_failed "compaction pointer: a key too short to be an internal key")
          | inr long ↦ rw long (
              it_went rest (set_compact_pointer e level key) (omega arith) (
                name,
                log,
                prev,
                next,
                seq,
                All-append IsPointer e.compact_pointers ((level, key) ∷ []) pointers
                    ((is_level, long_enough key fits long), tt),
                deleted,
                files,
              ))
        ]))

add_file-IsRound :
    (e : VersionEdit) (input : Bytes) (level n size : ℕ) (smallest largest rest : Bytes)
    → IsStored e
    → IsLevel level
    → n < 2 ^ 64
    → size < 2 ^ 64
    → length smallest < 2 ^ 32
    → length largest < 2 ^ 32
    → length rest ≤ length input
    → IsRound input (
        if ltb (length smallest) 8 || ltb (length largest) 8
        then failed "new file: a key too short to be an internal key"
        else went rest (add_file e level n size smallest largest))
add_file-IsRound e input level n size smallest largest rest
      (name, log, prev, next, seq, pointers, deleted, files) is_level hn hs first last less =
    elim (Bool-cases (ltb (length smallest) 8 || ltb (length largest) 8)) [
      | inl short ↦ rw short (it_failed "new file: a key too short to be an internal key")
      | inr long ↦
          let meta : IsMeta (file_meta n size smallest largest) = record {
            number_fits = hn;
            size_fits = hs;
            smallest_key = (ground arith, first);
            largest_key = (ground arith, last);
            seeks_first = refl;
            refs_first = refl;
          } in
          rw long (
            it_went rest (add_file e level n size smallest largest) less (
              name,
              log,
              prev,
              next,
              seq,
              pointers,
              deleted,
              All-append IsNew e.new_files ((level, file_meta n size smallest largest) ∷ []) files
                  ((is_level, meta), tt),
            ))
    ]

decode_new-IsRound :
    (e : VersionEdit) (input : Bytes) → IsStored e → IsRound input (decode_new e input)
decode_new-IsRound e input s = IsRound-read input "new file" _ (get_level input) (λ level input₁ at.
    IsRound-read input "new file" _ (get_varint64 input₁) (λ n input₂ at₁.
      IsRound-read input "new file" _ (get_varint64 input₂) (λ size input₃ at₂.
        IsRound-read input "new file" _ (get_length_prefixed input₃) (λ smallest input₄ at₃.
          IsRound-read input "new file" _ (get_length_prefixed input₄) (λ largest rest at₄.
            let (is_level, less) = get_level-IsLevel input level input₁ at in
            let (hn, less₁, _) = get_varint64_takes input₁ n input₂ at₁ in
            let (hs, less₂, _) = get_varint64_takes input₂ size input₃ at₂ in
            let (first, less₃) = get_length_prefixed-fits input₃ smallest input₄ at₃ in
            let (last, less₄) = get_length_prefixed-fits input₄ largest rest at₄ in
            add_file-IsRound e input level n size smallest largest rest s is_level hn hs first last
              (omega arith))))))

pub decode_field-IsRound :
    (tag : Tag) (e : VersionEdit) (input : Bytes)
    → IsStored e
    → IsRound input (decode_field tag e input)
unfolding decode_field
decode_field-IsRound comparator_tag e input s = decode_name-IsRound e input s
decode_field-IsRound log_number_tag e input (name, log, prev, next, seq, pointers, deleted, files) =
    decode_number-IsRound "log number" (set_log_number e) input
      (λ n fits. (name, (fits, inl refl), prev, next, seq, pointers, deleted, files))
decode_field-IsRound prev_log_number_tag e input
      (name, log, prev, next, seq, pointers, deleted, files) =
    decode_number-IsRound "previous log number" (set_prev_log_number e) input
      (λ n fits. (name, log, (fits, inl refl), next, seq, pointers, deleted, files))
decode_field-IsRound next_file_number_tag e input
      (name, log, prev, next, seq, pointers, deleted, files) =
    decode_number-IsRound "next file number" (set_next_file e) input
      (λ n fits. (name, log, prev, (fits, inl refl), seq, pointers, deleted, files))
decode_field-IsRound last_sequence_tag e input
      (name, log, prev, next, seq, pointers, deleted, files) =
    decode_number-IsRound "last sequence" (set_last_sequence e) input
      (λ n fits. (name, log, prev, next, (fits, inl refl), pointers, deleted, files))
decode_field-IsRound compact_pointer_tag e input s = decode_pointer-IsRound e input s
decode_field-IsRound deleted_file_tag e input s = decode_deleted-IsRound e input s
decode_field-IsRound new_file_tag e input s = decode_new-IsRound e input s
decode_field-IsRound (unknown_tag n) e input s = it_failed "unknown tag"
