-- ===== src/VersionEdit/Runs.antt =====
-- version_edit.cpp: the loop of `decode_from` over the fields that `encode_to` writes.
use ambar.Prelude.{
  ℕ, zero, suc, ◌^◌, ◌<◌, Bool, true, false, some, List, [], ◌∷◌, ◌++◌, append_assoc, append-nil,
  Bytes, length, length-append, All, ltb, le→ltb, inl, inr, arith, ◌≡◌, refl, ap, ap₂, sym, ◌∙◌,
  subst,
}
use Prim.Native.String.{String}
use ambar.Encoding.Varint.{groups, length-groups, get-groups32, get-groups64}
use ambar.Encoding.Prefixed.{prefixed, get-prefixed}
use ambar.Status.{Status}
use ambar.VersionEdit.{
  VersionEdit, FileMetaData, file_meta, pair_before, set_insert, Tag, comparator_tag,
  compact_pointer_tag, deleted_file_tag, new_file_tag, tag_number, to_tag, set_comparator_name,
  set_compact_pointer, remove_file,
}
use ambar.VersionEdit.Decoding.{
  get_level, went, decode_name, decode_number, decode_pointer, decode_deleted, decode_new,
  decode_field, decode_loop,
}
use ambar.VersionEdit.Stored.{
  IsLevel, IsMeta, IsNumber, IsName, IsPointer, IsDeleted, IsNew, IsAhead, IsOrdered, first_of,
}
use ambar.VersionEdit.Encodes.{
  tagged, name_bytes, number_bytes, pointer_bytes, deleted_bytes, new_bytes,
}

-- What the loop comes to, however much fuel there is above the input's length.
abbrev pub Run : Bytes → VersionEdit → Status × VersionEdit → Type 0
Run input e r = (fuel : ℕ) → length input < fuel → decode_loop fuel input e ≡ some r

-- One round.
Run-tagged :
    (tag : Tag) (e e' : VersionEdit) (front rest : Bytes) (r : Status × VersionEdit)
    → to_tag (tag_number tag) ≡ tag
    → tag_number tag < 2 ^ 32
    → decode_field tag e (front ++ rest) ≡ went rest e'
    → Run rest e' r
    → Run (tagged tag ++ (front ++ rest)) e r
unfolding decode_loop
Run-tagged tag e e' front rest r named small field more zero enough = absurd (omega arith)
Run-tagged tag e e' front rest r named small field more (suc fuel) enough =
    let less : length rest < fuel = omega (
      arith,
      enough,
      length-append (tagged tag) (front ++ rest),
      length-append front rest,
      length-groups 4 (tag_number tag),
    ) in
    rw (decode_loop, get-groups32 (tag_number tag) (front ++ rest) small, named, field)
      (more fuel less)

pub name-Run :
    (e : Bool → Bytes → VersionEdit) (has : Bool) (name rest : Bytes) (r : Status × VersionEdit)
    → ((n : Bytes) → set_comparator_name (e false []) n ≡ e true n)
    → IsName has name
    → Run rest (e has name) r
    → Run (name_bytes has name ++ rest) (e false []) r
unfolding name_bytes
name-Run e true name rest r set (fits, _) more =
    rw (append_assoc (tagged comparator_tag) (prefixed name) rest) (
      Run-tagged comparator_tag (e false []) (e true name) (prefixed name) rest r
        (unfold to_tag in refl) (omega arith)
        (unfold decode_field in
          rw (decode_name, get-prefixed name rest fits) (ap (went rest) (set name)))
        more)
name-Run e false name rest r set (_, inl wrong) more = absurd (cc)
name-Run e false name rest r set (_, inr empty) more =
    subst (λ n. Run rest (e false n) r) empty more

pub number-Run :
    (tag : Tag) (what : String) (e : Bool → ℕ → VersionEdit) (has : Bool) (n : ℕ) (rest : Bytes)
    (r : Status × VersionEdit)
    → to_tag (tag_number tag) ≡ tag
    → tag_number tag < 2 ^ 32
    → ((input : Bytes) → decode_field tag (e false 0) input ≡ decode_number what (e true) input)
    → IsNumber has n
    → Run rest (e has n) r
    → Run (number_bytes tag has n ++ rest) (e false 0) r
unfolding number_bytes
number-Run tag what e true n rest r named small field (fits, _) more =
    rw (append_assoc (tagged tag) (groups 9 n) rest) (
      Run-tagged tag (e false 0) (e true n) (groups 9 n) rest r named small
        (field (groups 9 n ++ rest) ∙ rw (decode_number, get-groups64 n rest fits) refl) more)
number-Run tag what e false n rest r named small field (_, inl wrong) more = absurd (cc)
number-Run tag what e false n rest r named small field (_, inr unset) more =
    subst (λ n'. Run rest (e false n') r) unset more

get_level-groups :
    (level : ℕ) (rest : Bytes)
    → IsLevel level
    → get_level (groups 4 level ++ rest) ≡ some (level, rest)
unfolding get_level
get_level-groups level rest h = rw (get_level, get-groups32 level rest (omega arith)) (ground arith)

pub pointers-Run :
    (pointers : List (ℕ × Bytes)) (e : VersionEdit) (rest : Bytes) (r : Status × VersionEdit)
    → All IsPointer pointers
    → Run rest (record e { compact_pointers = e.compact_pointers ++ pointers }) r
    → Run (pointer_bytes pointers ++ rest) e r
unfolding pointer_bytes
pointers-Run [] e rest r h more = rw append-nil at more
pointers-Run ((level, key) ∷ pointers) e rest r ((is_level, (long, fits)), h) more =
    let behind = pointer_bytes pointers ++ rest in
    let enough : ltb (length key) 8 ≡ false = le→ltb (length key) 8 long in
    let split : pointer_bytes ((level, key) ∷ pointers) ++ rest
        ≡ tagged compact_pointer_tag ++ ((groups 4 level ++ prefixed key) ++ behind) =
      simp append_assoc refl in
    subst (λ bs. Run bs e r) (sym split)
      (Run-tagged compact_pointer_tag e (set_compact_pointer e level key)
        (groups 4 level ++ prefixed key) behind r (unfold to_tag in refl) (omega arith)
        (unfold decode_field in
          rw
            (
              decode_pointer,
              append_assoc (groups 4 level) (prefixed key) behind,
              get_level-groups level (prefixed key ++ behind) is_level,
              get-prefixed key behind fits,
              enough,
            )
            refl)
        (pointers-Run pointers (set_compact_pointer e level key) rest r h
          (rw (append_assoc e.compact_pointers ((level, key) ∷ []) pointers) more)))

-- An ordered list keeps its end when its last pair is put in.
set_insert_last :
    (a : ℕ × ℕ) (done files : List (ℕ × ℕ))
    → IsOrdered (done ++ (a ∷ files))
    → set_insert a done ≡ done ++ (a ∷ [])
unfolding set_insert
set_insert_last a [] files h = refl
set_insert_last a (b ∷ bs) files (first_of b' bs' ahead h) =
    let before = All_middle bs ahead in
    let not_after : pair_before a b ≡ false = ground (arith, before) in
    rw (not_after, before) (ap (◌∷◌ b) (set_insert_last a bs files h))
  where
    All_middle : (bs : List (ℕ × ℕ)) → IsAhead (bs ++ (a ∷ files)) b → pair_before b a ≡ true
    All_middle [] h = h.0
    All_middle (c ∷ cs) h = All_middle cs h.1

pub deleted-Run :
    (files : List (ℕ × ℕ)) (e : VersionEdit) (rest : Bytes) (r : Status × VersionEdit)
    → All IsDeleted files
    → IsOrdered (e.deleted_files ++ files)
    → Run rest (record e { deleted_files = e.deleted_files ++ files }) r
    → Run (deleted_bytes files ++ rest) e r
unfolding deleted_bytes
deleted-Run [] e rest r h ordered more = rw append-nil at more
deleted-Run ((level, n) ∷ files) e rest r ((is_level, fits), h) ordered more =
    let behind = deleted_bytes files ++ rest in
    let split : deleted_bytes ((level, n) ∷ files) ++ rest
        ≡ tagged deleted_file_tag ++ ((groups 4 level ++ groups 9 n) ++ behind) =
      simp append_assoc refl in
    let last = set_insert_last (level, n) e.deleted_files files ordered in
    let moved = append_assoc e.deleted_files ((level, n) ∷ []) files in
    let all : (remove_file e level n).deleted_files ++ files
        ≡ e.deleted_files ++ ((level, n) ∷ files) =
      ap (λ (fs : List (ℕ × ℕ)). fs ++ files) last ∙ moved in
    subst (λ bs. Run bs e r) (sym split)
      (Run-tagged deleted_file_tag e (remove_file e level n) (groups 4 level ++ groups 9 n) behind r
        (unfold to_tag in refl) (omega arith)
        (unfold decode_field in
          rw
            (
              decode_deleted,
              append_assoc (groups 4 level) (groups 9 n) behind,
              get_level-groups level (groups 9 n ++ behind) is_level,
              get-groups64 n behind fits,
            )
            refl)
        (deleted-Run files (remove_file e level n) rest r h (subst IsOrdered (sym all) ordered)
          (subst (λ fs. Run rest (record e { deleted_files = fs }) r) (sym all) more)))

-- The counters of a file that was read are the first ones.
file_meta-IsMeta :
    (meta : FileMetaData)
    → IsMeta meta
    → file_meta meta.number meta.file_size meta.smallest meta.largest ≡ meta
file_meta-IsMeta meta m =
    ap₂ (λ (seeks refs : ℕ). record meta { allowed_seeks = seeks; refs = refs }) (sym m.seeks_first)
      (sym m.refs_first)

pub new-Run :
    (files : List (ℕ × FileMetaData)) (e : VersionEdit) (rest : Bytes) (r : Status × VersionEdit)
    → All IsNew files
    → Run rest (record e { new_files = e.new_files ++ files }) r
    → Run (new_bytes files ++ rest) e r
unfolding new_bytes
new-Run [] e rest r h more = rw append-nil at more
new-Run ((level, meta) ∷ files) e rest r ((is_level, m), h) more =
    let behind = new_bytes files ++ rest in
    let keys = prefixed meta.smallest ++ prefixed meta.largest in
    let numbers = groups 9 meta.number ++ groups 9 meta.file_size in
    let split : new_bytes ((level, meta) ∷ files) ++ rest
        ≡ tagged new_file_tag ++ ((groups 4 level ++ (numbers ++ keys)) ++ behind) =
      simp append_assoc refl in
    let parts : (groups 4 level ++ (numbers ++ keys)) ++ behind
        ≡ groups 4 level
          ++ (groups 9 meta.number
              ++ (groups 9 meta.file_size
                  ++ (prefixed meta.smallest ++ (prefixed meta.largest ++ behind)))) =
      simp append_assoc refl in
    let long : ltb (length meta.smallest) 8 ≡ false = le→ltb _ _ m.smallest_key.0 in
    let long' : ltb (length meta.largest) 8 ≡ false = le→ltb _ _ m.largest_key.0 in
    let e' : VersionEdit = record e { new_files = e.new_files ++ ((level, meta) ∷ []) } in
    subst (λ bs. Run bs e r) (sym split)
      (Run-tagged new_file_tag e e' (groups 4 level ++ (numbers ++ keys)) behind r
        (unfold to_tag in refl) (omega arith)
        (unfold decode_field in
          rw
            (
              decode_new,
              parts,
              get_level-groups level _ is_level,
              get-groups64 meta.number _ m.number_fits,
              get-groups64 meta.file_size _ m.size_fits,
              get-prefixed meta.smallest _ m.smallest_key.1,
              get-prefixed meta.largest behind m.largest_key.1,
              long,
              long',
            )
            (ap
              (λ (x : FileMetaData).
                went behind (record e { new_files = e.new_files ++ ((level, x) ∷ []) }))
              (file_meta-IsMeta meta m)))
        (new-Run files e' rest r h (rw (append_assoc e.new_files ((level, meta) ∷ []) files) more)))
