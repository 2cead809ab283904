-- ===== src/Block/Find/Points.antt =====
-- block.cpp: the search over the restart points of a block that a builder made.
use Prim.Native.String.{String}
use ambar.Prelude.{
  ℕ, zero, suc, ◌+◌, ◌-◌, ◌*◌, ◌≤◌, ◌<◌, ◌^◌, false, List, [], ◌∷◌, ◌++◌, append_assoc, Bytes,
  length, length-drop, take, drop, get_or, take-append, drop-append, drop-drop, All, ltb, leb,
  le→ltb, if◌then◌else◌, arith, ◌≡◌, refl, ap, sym, ◌∙◌, subst,
}
use ambar.Encoding.{encode_fixed32, decode_fixed32}
use ambar.Encoding.Fixed.{decode-encode_fixed32}
use ambar.Comparator.{Comparator}
use ambar.BlockBuilder.Chain.{entry_bytes, restart_bytes}
use ambar.BlockBuilder.Points.{Point, drop_inside}
use ambar.Block.{Iter, Entry, decode_entry, get_restart_point, new_iter, some}
use ambar.Block.Decode.{entry_of, decode-entry_bytes}
use ambar.Block.Layout.{laid_out, length-laid_out}
use ambar.Block.Reads.{IsReadable}
use ambar.Block.Find.{below, probe, probe_entry, above, under}

pub restart_bytes-get :
    (rs : List ℕ) (i : ℕ) (tail : Bytes)
    → i < length rs
    → All (λ r. r < 2 ^ 32) rs
    → decode_fixed32 (drop (i * 4) (restart_bytes rs ++ tail)) ≡ get_or rs i 0
unfolding restart_bytes
restart_bytes-get [] i tail h fits = absurd (omega arith)
restart_bytes-get (r ∷ rs) zero tail h fits =
    ap decode_fixed32 (append_assoc (encode_fixed32 r) (restart_bytes rs) tail)
    ∙ decode-encode_fixed32 r (restart_bytes rs ++ tail) fits.0
restart_bytes-get (r ∷ rs) (suc i) tail h fits =
    let at : suc i * 4 ≡ 4 + i * 4 = omega arith in
    ap decode_fixed32 (
      ap (λ (n : ℕ). drop n ((encode_fixed32 r ++ restart_bytes rs) ++ tail)) at
      ∙ ap (drop (4 + i * 4)) (append_assoc (encode_fixed32 r) (restart_bytes rs) tail)
      ∙ sym (drop-drop 4 (i * 4) (encode_fixed32 r ++ (restart_bytes rs ++ tail)))
      ∙ ap (drop (i * 4)) (drop-append 4 (encode_fixed32 r) (restart_bytes rs ++ tail) (four r)))
    ∙ restart_bytes-get rs i tail (omega arith) fits.1
  where
    four : (r : ℕ) → 4 ≡ length (encode_fixed32 r)
    four r = unfold encode_fixed32 in refl

pub All-get_or :
    {A : Type 0} (P : A → Type 0) (xs : List A) (i : ℕ) (d : A)
    → All P xs
    → i < length xs
    → P (get_or xs i d)
All-get_or P [] i d h small = absurd (omega arith)
All-get_or P (x ∷ xs) zero d h small = h.0
All-get_or P (x ∷ xs) (suc i) d h small = All-get_or P xs i d h.1 (omega arith)

pub All-middle :
    {A : Type 0} (P : A → Type 0) (xs : List A) (y : A) (ys : List A) → All P (xs ++ (y ∷ ys)) → P y
All-middle P [] y ys h = h.0
All-middle P (x ∷ xs) y ys h = All-middle P xs y ys h.1

pub All-back : {A : Type 0} (P : A → Type 0) (xs ys : List A) → All P (xs ++ ys) → All P ys
All-back P [] ys h = h
All-back P (x ∷ xs) ys h = All-back P xs ys h.1

-- A probe that decodes an entry.
probe_decoded :
    (comparator : Comparator) (message : String) (target : Bytes) (it : Iter) (mid r : ℕ)
    (e : Entry)
    → get_restart_point it mid ≡ r
    → r < it.restart_offset
    → decode_entry (take (it.restart_offset - r) (drop r it.bytes)) ≡ some e
    → probe comparator message target it mid ≡ probe_entry comparator message target (some e)
unfolding probe
probe_decoded comparator message target it mid r e at inside decoded =
    let more : leb it.restart_offset r ≡ false = ground arith in rw (at, more, decoded) refl

-- An entry that shares nothing is compared by its whole key.
probe-entry_of :
    (comparator : Comparator) (message : String) (target key val rest : Bytes)
    → comparator.min_key_length ≤ length key
    → probe_entry comparator message target (some (entry_of 0 key val rest))
      ≡ (if below comparator key target then above else under)
unfolding probe_entry
probe-entry_of comparator message target key val rest long =
    let n = length key - 0 in
    let enough : ltb n comparator.min_key_length ≡ false = le→ltb _ _ (omega arith) in
    let whole : take n (key ++ (val ++ rest)) ≡ key =
      take-append n key (val ++ rest) (omega arith) in
    rw (enough, whole) refl

module _ (comparator : Comparator) (stray : ℕ) (buffer : Bytes) (more : List ℕ)
    (es : List (Bytes × Bytes)) (points : All (Point buffer es) more)
    (small : length (laid_out buffer (0 ∷ more)) < 2 ^ 32)
    (readable : All (IsReadable comparator) es) (target : Bytes) (message : String) where
  abbrev pub block_iter : Iter
  block_iter =
      new_iter comparator stray (laid_out buffer (0 ∷ more)) (length buffer) (length (0 ∷ more))

  points-fit : (rs : List ℕ) → All (Point buffer es) rs → All (λ r. r < 2 ^ 32) rs
  points-fit [] h = tt
  points-fit (r ∷ rs) (p, ps) =
      (omega (arith, p.inside, small, length-laid_out buffer (0 ∷ more)), points-fit rs ps)

  pub restart_point :
      (i : ℕ) → i < length (0 ∷ more) → get_restart_point block_iter i ≡ get_or (0 ∷ more) i 0
  unfolding get_restart_point
  restart_point i h =
      let tail = encode_fixed32 (length (0 ∷ more)) in
      ap decode_fixed32 (
        sym (drop-drop (length buffer) (i * 4) (laid_out buffer (0 ∷ more)))
        ∙ ap (drop (i * 4))
            (drop-append (length buffer) buffer (restart_bytes (0 ∷ more) ++ tail) refl))
      ∙ restart_bytes-get (0 ∷ more) i tail h (omega arith, points-fit more points)

  -- The bytes from a place in the buffer to its end.
  pub region :
      (r : ℕ)
      → r ≤ length buffer
      → take (length buffer - r) (drop r (laid_out buffer (0 ∷ more))) ≡ drop r buffer
  region r h =
      let tail = restart_bytes (0 ∷ more) ++ encode_fixed32 (length (0 ∷ more)) in
      ap (take (length buffer - r)) (drop_inside r buffer tail h)
      ∙ take-append (length buffer - r) (drop r buffer) tail (sym (length-drop r buffer))

  -- A point is probed by its key.
  pub probe-Point :
      (mid r : ℕ)
      → get_restart_point block_iter mid ≡ r
      → (p : Point buffer es r)
      → probe comparator message target block_iter mid
        ≡ (if below comparator p.key target then above else under)
  probe-Point mid r at p =
      let (shared, rest, hp, hk, same, bytes, others) = p.holds in
      let none_shared : shared ≡ 0 = omega arith in
      let (fits, long) =
        All-middle (IsReadable comparator) p.before (p.key, p.val) p.behind
          (subst (All (IsReadable comparator)) p.all readable) in
      let decoded : decode_entry (take (length buffer - r) (drop r (laid_out buffer (0 ∷ more))))
          ≡ some (entry_of 0 p.key p.val rest) =
        ap decode_entry (
          region r (omega (arith, p.inside))
          ∙ bytes
          ∙ ap (λ (s : ℕ). entry_bytes s p.key p.val ++ rest) none_shared)
        ∙ decode-entry_bytes 0 p.key p.val rest (omega arith) fits.0 fits.1 in
      probe_decoded comparator message target block_iter mid r (entry_of 0 p.key p.val rest) at
        p.inside decoded
      ∙ probe-entry_of comparator message target p.key p.val rest long
