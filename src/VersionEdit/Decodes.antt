-- ===== src/VersionEdit/Decodes.antt =====
-- version_edit.cpp: decoding ends on all bytes, and the edit that it leaves is one that a record can hold.
use ambar.Prelude.{
  ℕ, zero, suc, ◌+◌, ◌≤◌, ◌<◌, false, Option, some, Bytes, length, Option-cases, inl, inr, arith,
  ◌≡◌, refl,
}
use ambar.Encoding.{get_varint32}
use ambar.Encoding.Reading.{get_varint32_takes}
use ambar.Status.{Status}
use ambar.VersionEdit.{VersionEdit, clear, to_tag}
use ambar.VersionEdit.Decoding.{
  Round, went, failed, decode_field, refused, decode_loop, decode_from,
}
use ambar.VersionEdit.Stored.{IsNumber, none_left, IsStored}
use ambar.VersionEdit.Rounds.{IsRound, decode_field-IsRound, it_went, it_failed}

-- A run that ends, with a stored edit.
abbrev Ends : Option (Status × VersionEdit) → Type 0
Ends run = (status : Status) × (e : VersionEdit) × (run ≡ some (status, e)) × IsStored e

after_round :
    (fuel : ℕ) (rest : Bytes) (e : VersionEdit) (round : Round)
    → ((rest' : Bytes) (e' : VersionEdit)
        → length rest' ≤ length rest
        → IsStored e'
        → Ends (decode_loop fuel rest' e'))
    → IsStored e
    → IsRound rest round
    → Ends (elim round [
      | failed failure ↦ some (refused failure, e)
      | went rest' e' ↦ decode_loop fuel rest' e'
    ])
after_round fuel rest e round more s (it_went rest' e' less s') = more rest' e' less s'
after_round fuel rest e round more s (it_failed what) = (refused what, e, refl, s)

decode_loop-IsStored :
    (fuel : ℕ) (input : Bytes) (e : VersionEdit)
    → length input < fuel
    → IsStored e
    → Ends (decode_loop fuel input e)
unfolding decode_loop
decode_loop-IsStored zero input e enough s = absurd (omega arith)
decode_loop-IsStored (suc fuel) input e enough s = elim (Option-cases (get_varint32 input)) [
  | inl gone ↦ rw (decode_loop, gone) (_, e, refl, s)
  | inr ((tag, rest), read) ↦
      let (_, less, _) = get_varint32_takes input tag rest read in
      rw (decode_loop, read)
        (after_round fuel rest e (decode_field (to_tag tag) e rest)
          (λ rest' e' less' s'. decode_loop-IsStored fuel rest' e' (omega arith) s') s
          (decode_field-IsRound (to_tag tag) e rest s))
]

-- On any bytes, decode_from ends, and the edit that it leaves, after an error too, is well formed:
-- levels are below seven, all keys of pointers and files have the eight bytes of a trailer, numbers
-- have their widths, the deleted files are an ordered set, and a field without its flag has its
-- first value.
pub decode_from-IsStored :
    (src : Bytes)
    → (status : Status) × (e : VersionEdit) × (decode_from src ≡ some (status, e)) × IsStored e
unfolding decode_from
decode_from-IsStored src =
    let zero_fits : IsNumber false 0 = (omega arith, inr refl) in
    decode_loop-IsStored (length src + 1) src clear (omega arith)
      ((omega arith, inr refl), zero_fits, zero_fits, zero_fits, zero_fits, tt, (tt, none_left), tt)
