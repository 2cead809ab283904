-- ===== src/FilterBlock/Reads.antt =====
-- filter_block.cpp: the reader of a block whose layout is known.
use ambar.Prelude.{
  ℕ, zero, suc, ◌+◌, ◌-◌, ◌*◌, ◌/◌, ◌<◌, ◌^◌, ◌>>>◌, u32, Bool, true, false, ◌||◌, some, List, [],
  ◌∷◌, ◌++◌, append_assoc, append-nil, Bytes, length, length-append, take, drop, get_or, drop-drop,
  take-append, drop-append, All, ltb, leb, ◌==◌, le→ltb, if◌then◌else◌, arith, ◌≡◌, refl, ap, sym,
  ◌∙◌,
}
use ambar.Encoding.{byte_at, encode_fixed32, decode_fixed32}
use ambar.Encoding.Fixed.{decode-encode_fixed32}
use ambar.BlockBuilder.Chain.{restart_bytes, length-restart_bytes}
use ambar.Block.Find.Points.{restart_bytes-get}
use ambar.FilterPolicy.{FilterPolicy}
use ambar.FilterBlock.{new_reader, match_between, key_may_match}
use ambar.FilterBlock.Builds.{joined, joined-append, starts, bounds, starts-end, length-starts}

-- The filters, the array of their bounds, and the region's size.
abbrev pub laid_out : List Bytes → Bytes
laid_out filters = joined filters ++ (restart_bytes (bounds 0 filters) ++ (11 ∷ []))

pub restart_bytes-append :
    (xs : List ℕ) (y : ℕ) → restart_bytes (xs ++ (y ∷ [])) ≡ restart_bytes xs ++ encode_fixed32 y
unfolding restart_bytes
restart_bytes-append [] y = append-nil (encode_fixed32 y)
restart_bytes-append (x ∷ xs) y =
    ap (λ (b : Bytes). encode_fixed32 x ++ b) (restart_bytes-append xs y)
    ∙ sym (append_assoc (encode_fixed32 x) (restart_bytes xs) (encode_fixed32 y))

length-bounds : (n : ℕ) (xs : List Bytes) → length (bounds n xs) ≡ suc (length xs)
unfolding bounds
length-bounds n [] = refl
length-bounds n (x ∷ xs) = ap suc (length-bounds (n + length x) xs)

bounds-fit :
    (n : ℕ) (xs : List Bytes)
    → n + length (joined xs) < 2 ^ 32
    → All (λ r. r < 2 ^ 32) (bounds n xs)
unfolding bounds joined
bounds-fit n [] h = (omega arith, tt)
bounds-fit n (x ∷ xs) h =
    (omega arith, bounds-fit (n + length x) xs (omega (arith, length-append x (joined xs))))

-- A filter's two bounds.
bounds-first : (n : ℕ) (xs : List Bytes) → get_or (bounds n xs) 0 0 ≡ n
unfolding bounds
bounds-first n [] = refl
bounds-first n (x ∷ xs) = refl

bounds-start :
    (n : ℕ) (front : List Bytes) (x : Bytes) (back : List Bytes)
    → get_or (bounds n (front ++ (x ∷ back))) (length front) 0 ≡ n + length (joined front)
unfolding bounds joined
bounds-start n [] x back = omega arith
bounds-start n (y ∷ front) x back =
    bounds-start (n + length y) front x back ∙ omega (arith, length-append y (joined front))

bounds-limit :
    (n : ℕ) (front : List Bytes) (x : Bytes) (back : List Bytes)
    → get_or (bounds n (front ++ (x ∷ back))) (suc (length front)) 0
      ≡ (n + length (joined front)) + length x
unfolding bounds joined
bounds-limit n [] x back = bounds-first (n + length x) back ∙ omega arith
bounds-limit n (y ∷ front) x back =
    bounds-limit (n + length y) front x back ∙ omega (arith, length-append y (joined front))

get_or_last : (xs : Bytes) (x i : ℕ) → i ≡ length xs → get_or (xs ++ (x ∷ [])) i 0 ≡ x
get_or_last [] x zero e = refl
get_or_last [] x (suc i) e = absurd (omega arith)
get_or_last (y ∷ ys) x zero e = absurd (omega arith)
get_or_last (y ∷ ys) x (suc i) e = get_or_last ys x i (omega arith)

length-laid_out :
    (filters : List Bytes)
    → length (laid_out filters) ≡ length (joined filters) + (length filters * 4 + 5)
length-laid_out filters = omega (
  arith,
  length-append (joined filters) (restart_bytes (bounds 0 filters) ++ (11 ∷ [])),
  length-append (restart_bytes (bounds 0 filters)) (11 ∷ []),
  length-restart_bytes (bounds 0 filters),
  length-bounds 0 filters,
)

pub new_reader-laid_out :
    (filters : List Bytes)
    → length (laid_out filters) < 2 ^ 32
    → new_reader (laid_out filters) ≡ record {
      data_ = some (laid_out filters);
      offset = length (joined filters);
      num = length filters;
      base_lg = 11;
    }
unfolding new_reader
new_reader-laid_out filters small =
    let contents = laid_out filters in
    let n = length (joined filters) in
    let size = length-laid_out filters in
    let front = joined filters ++ restart_bytes (starts 0 filters) in
    let total : ℕ = 0 + n in
    let parts : contents ≡ front ++ (encode_fixed32 total ++ (11 ∷ [])) =
      ap (λ (ns : List ℕ). joined filters ++ (restart_bytes ns ++ (11 ∷ [])))
        (sym (starts-end 0 filters))
      ∙ ap (λ (b : Bytes). joined filters ++ (b ++ (11 ∷ [])))
          (restart_bytes-append (starts 0 filters) total)
      ∙ simp append_assoc refl in
    let length_front : length front ≡ length contents - 5 = omega (
      arith,
      size,
      length-append (joined filters) (restart_bytes (starts 0 filters)),
      length-restart_bytes (starts 0 filters),
      length-starts 0 filters,
    ) in
    let last_word : decode_fixed32 (drop (length contents - 5) contents) ≡ n =
      ap (λ (b : Bytes). decode_fixed32 (drop (length contents - 5) b)) parts
      ∙ ap decode_fixed32 (
          drop-append (length contents - 5) front (encode_fixed32 total ++ (11 ∷ []))
            (sym length_front))
      ∙ decode-encode_fixed32 total (11 ∷ []) (omega (arith, size))
      ∙ omega arith in
    let before = front ++ encode_fixed32 total in
    let length_before : length contents - 1 ≡ length before =
      omega (arith, size, length_front, length-append front (encode_fixed32 total), four total) in
    let base : byte_at contents (length contents - 1) ≡ 11 =
      ap (λ (b : Bytes). byte_at b (length contents - 1))
        (parts ∙ sym (append_assoc front (encode_fixed32 total) (11 ∷ [])))
      ∙ get_or_last before 11 (length contents - 1) length_before in
    let long : ltb (length contents) 5 ≡ false = le→ltb _ _ (omega (arith, size)) in
    let sane : ltb (length contents - 5) n ≡ false = le→ltb _ _ (omega (arith, size)) in
    let count : (length contents - 5 - n) / 4 ≡ length filters = omega (arith, size) in
    rw (long, base, last_word, sane, count) refl
  where
    four : (v : ℕ) → length (encode_fixed32 v) ≡ 4
    four v = unfold encode_fixed32 in refl

-- A filter is asked between its bounds.
pub key_may_match-laid_out :
    (policy : FilterPolicy) (front : List Bytes) (filter : Bytes) (back : List Bytes)
    (block_offset : ℕ) (key : Bytes)
    → length (laid_out (front ++ (filter ∷ back))) < 2 ^ 32
    → block_offset >>> 11 ≡ length front
    → policy.key_may_match key filter ≡ true
    → key_may_match policy (new_reader (laid_out (front ++ (filter ∷ back)))) block_offset key
      ≡ true
unfolding key_may_match match_between
key_may_match-laid_out policy front filter back block_offset key small at matches =
    let filters = front ++ (filter ∷ back) in
    let contents = laid_out filters in
    let n = length (joined filters) in
    let i = length front in
    let start = length (joined front) in
    let size = length-laid_out filters in
    let fits = bounds-fit 0 filters (omega (arith, size)) in
    let count : length filters ≡ i + suc (length back) = length-append front (filter ∷ back) in
    let whole : n ≡ start + (length filter + length (joined back)) =
      ap (λ (b : Bytes). length b) (joined-append front (filter ∷ back))
      ∙ unfold joined in
        omega (
          arith,
          length-append (joined front) (filter ++ joined back),
          length-append filter (joined back),
        ) in
    let got : (j : ℕ)
        → j < length (bounds 0 filters)
        → decode_fixed32 (drop (n + j * 4) contents) ≡ get_or (bounds 0 filters) j 0 =
      λ j h.
        ap decode_fixed32 (
          sym (drop-drop n (j * 4) contents)
          ∙ ap (drop (j * 4))
              (drop-append n (joined filters) (restart_bytes (bounds 0 filters) ++ (11 ∷ [])) refl))
        ∙ restart_bytes-get (bounds 0 filters) j (11 ∷ []) h fits in
    let first : decode_fixed32 (drop (n + i * 4) contents) ≡ start =
      got i (omega (arith, count, length-bounds 0 filters))
      ∙ bounds-start 0 front filter back
      ∙ omega arith in
    let next : n + i * 4 + 4 ≡ n + suc i * 4 = omega arith in
    let second : decode_fixed32 (drop (n + i * 4 + 4) contents) ≡ start + length filter =
      ap (λ (k : ℕ). decode_fixed32 (drop k contents)) next
      ∙ got (suc i) (omega (arith, count, length-bounds 0 filters))
      ∙ bounds-limit 0 front filter back
      ∙ omega arith in
    let known : leb (length filters) i ≡ false = ground (arith, count) in
    let ordered : (ltb (start + length filter) start || ltb (u32 n) (start + length filter))
        ≡ false =
      let above_start : ltb (start + length filter) start ≡ false = le→ltb _ _ (omega arith) in
      let inside : ltb (u32 n) (start + length filter) ≡ false =
        le→ltb _ _ (omega (arith, size, whole)) in
      rw (above_start, inside) refl in
    let between : take ((start + length filter) - start) (drop start contents) ≡ filter =
      let tail = restart_bytes (bounds 0 filters) ++ (11 ∷ []) in
      let parts : contents ≡ joined front ++ (filter ++ (joined back ++ tail)) =
        ap (λ (b : Bytes). b ++ tail) (joined-append front (filter ∷ back))
        ∙ unfold joined in simp append_assoc refl in
      ap (λ (b : Bytes). take ((start + length filter) - start) (drop start b)) parts
      ∙ ap (take ((start + length filter) - start))
          (drop-append start (joined front) (filter ++ (joined back ++ tail)) refl)
      ∙ take-append _ filter (joined back ++ tail) (omega arith) in
    rw (new_reader-laid_out filters small, at, first, second, known, ordered, between, matches)
      (either (start == (start + length filter)))
  where
    either : (c : Bool) → (if c then true else true) ≡ true
    either true = refl
    either false = refl
