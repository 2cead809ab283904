-- ===== src/BlockBuilder/Points.antt =====
-- Where the restart points of a block stand: each but the first begins an entry that shares nothing.
use native.Mathlib.Nat.{mod-eq_of_lt}
use ambar.Prelude.{
  ℕ, zero, suc, ◌≤◌, ◌<◌, ◌^◌, List, [], ◌∷◌, ◌++◌, append_assoc, append-nil, Bytes, length,
  length-append, take, drop, drop-append, All, All-append, ltb, Bool-cases, inl, inr, arith, ◌≡◌,
  refl, ap, sym, ◌∙◌,
}
use ambar.BlockBuilder.{BlockBuilder, new_builder, add}
use ambar.BlockBuilder.Chain.{
  entry_bytes, Holds, Holds-append, last_of, put_entry-bytes, length-entry_bytes, Fits, Building,
  add-Building, add_entries, add-shares, new_builder-Building,
}

-- A restart point of a buffer that holds these entries.
pub record Point (buffer : Bytes) (es : List (Bytes × Bytes)) (r : ℕ) : Type 0 where
  pub before : List (Bytes × Bytes)
  pub key : Bytes
  pub val : Bytes
  pub behind : List (Bytes × Bytes)
  pub all : es ≡ before ++ ((key, val) ∷ behind)
  pub inside : r < length buffer
  pub holds : Holds [] (drop r buffer) ((key, val) ∷ behind)

pub drop_inside : (r : ℕ) (xs ys : Bytes) → r ≤ length xs → drop r (xs ++ ys) ≡ drop r xs ++ ys
drop_inside zero xs ys h = refl
drop_inside (suc r) [] ys h = absurd (omega arith)
drop_inside (suc r) (x ∷ xs) ys h = drop_inside r xs ys (omega arith)

last_of-append_cons :
    (prev : Bytes) (es : List (Bytes × Bytes)) (key val : Bytes) (es' : List (Bytes × Bytes))
    → last_of prev (es ++ ((key, val) ∷ es')) ≡ last_of [] ((key, val) ∷ es')
last_of-append_cons prev [] key val es' = refl
last_of-append_cons prev ((k, v) ∷ es) key val es' = last_of-append_cons k es key val es'

-- An entry more behind a point.
Point-grows :
    (buffer key val : Bytes) (es : List (Bytes × Bytes)) (r shared : ℕ)
    → shared ≤ length (last_of [] es)
    → shared ≤ length key
    → take shared (last_of [] es) ≡ take shared key
    → Point buffer es r
    → Point (buffer ++ entry_bytes shared key val) (es ++ ((key, val) ∷ [])) r
Point-grows buffer key val es r shared hp hk same p =
    let from = (p.key, p.val) ∷ p.behind in
    let last : last_of [] es ≡ last_of [] from =
      ap (last_of []) p.all ∙ last_of-append_cons [] p.before p.key p.val p.behind in
    record {
      before = p.before;
      key = p.key;
      val = p.val;
      behind = p.behind ++ ((key, val) ∷ []);
      all =
          ap (λ (xs : List (Bytes × Bytes)). xs ++ ((key, val) ∷ [])) p.all
          ∙ append_assoc p.before from ((key, val) ∷ []);
      inside = omega (arith, p.inside, length-append buffer (entry_bytes shared key val));
      holds = rw (drop_inside r buffer (entry_bytes shared key val) (omega (arith, p.inside))) (
          Holds-append [] (drop r buffer) key val from shared p.holds (rw last at hp) hk
            (rw last at same));
    }

Points-grow :
    (buffer key val : Bytes) (es : List (Bytes × Bytes)) (shared : ℕ) (rs : List ℕ)
    → shared ≤ length (last_of [] es)
    → shared ≤ length key
    → take shared (last_of [] es) ≡ take shared key
    → All (Point buffer es) rs
    → All (Point (buffer ++ entry_bytes shared key val) (es ++ ((key, val) ∷ []))) rs
Points-grow buffer key val es shared [] hp hk same h = tt
Points-grow buffer key val es shared (r ∷ rs) hp hk same (p, ps) = (
  Point-grows buffer key val es r shared hp hk same p,
  Points-grow buffer key val es shared rs hp hk same ps,
)

-- The point where a new chain begins.
new_point :
    (buffer key val : Bytes) (es : List (Bytes × Bytes))
    → Point (buffer ++ entry_bytes 0 key val) (es ++ ((key, val) ∷ [])) (length buffer)
new_point buffer key val es = record {
  before = es;
  key = key;
  val = val;
  behind = [];
  all = refl;
  inside =
      omega (arith, length-append buffer (entry_bytes 0 key val), length-entry_bytes 0 key val);
  holds =
      rw (drop-append (length buffer) buffer (entry_bytes 0 key val) refl)
        (0, [], omega arith, omega arith, refl, sym (append-nil (entry_bytes 0 key val)), refl);
}

-- A builder all of whose restarts behind the first are such points.
pub record Pointed (b : BlockBuilder) (es : List (Bytes × Bytes)) : Type 0 where
  pub building : Building b es
  pub more : List ℕ
  pub restarts : b.restarts ≡ 0 ∷ more
  pub points : All (Point b.buffer es) more

pub add-Pointed :
    (b : BlockBuilder) (es : List (Bytes × Bytes)) (key val : Bytes)
    → Pointed b es
    → length key < 2 ^ 32
    → length val < 2 ^ 32
    → length b.buffer < 2 ^ 32
    → Pointed (add b key val) (es ++ ((key, val) ∷ []))
add-Pointed b es key val p hk hv small =
    let (shared, bytes, hp, hs, same) = add-shares b es key val p.building hk hv in
    elim (Bool-cases (ltb b.since_restart b.restart_interval)) [
      | inl near ↦ record {
        building = add-Building b es key val p.building hk hv;
        more = p.more;
        restarts = unfold add in rw near p.restarts;
        points = rw bytes (Points-grow b.buffer key val es shared p.more hp hs same p.points);
      }
      | inr far ↦
          let bytes' : (add b key val).buffer ≡ b.buffer ++ entry_bytes 0 key val =
            unfold add in rw far (put_entry-bytes b.buffer 0 key val (omega arith) hk hv) in
          record {
            building = add-Building b es key val p.building hk hv;
            more = p.more ++ (length b.buffer ∷ []);
            restarts = unfold add in rw (far, p.restarts, mod-eq_of_lt small) refl;
            points = rw bytes' (
                All-append (Point (b.buffer ++ entry_bytes 0 key val) (es ++ ((key, val) ∷ [])))
                  p.more (length b.buffer ∷ [])
                  (Points-grow b.buffer key val es 0 p.more (omega arith) (omega arith) refl
                    p.points)
                  (new_point b.buffer key val es, tt));
          }
    ]

length-add :
    (b : BlockBuilder) (es : List (Bytes × Bytes)) (key val : Bytes)
    → Building b es
    → length key < 2 ^ 32
    → length val < 2 ^ 32
    → length b.buffer ≤ length (add b key val).buffer
length-add b es key val u hk hv =
    let (shared, bytes, hp, hs, same) = add-shares b es key val u hk hv in
    omega (
      arith,
      ap (λ (bs : Bytes). length bs) bytes,
      length-append b.buffer (entry_bytes shared key val),
    )

length-add_entries :
    (b : BlockBuilder) (done es : List (Bytes × Bytes))
    → Building b done
    → All Fits es
    → length b.buffer ≤ length (add_entries b es).buffer
unfolding add_entries
length-add_entries b done [] u h = omega arith
length-add_entries b done ((key, val) ∷ es) u (fits, h) = omega (
  arith,
  length-add b done key val u fits.0 fits.1,
  length-add_entries (add b key val) (done ++ ((key, val) ∷ [])) es
      (add-Building b done key val u fits.0 fits.1) h,
)

add_entries-Pointed_from :
    (b : BlockBuilder) (done es : List (Bytes × Bytes))
    → Pointed b done
    → All Fits es
    → length (add_entries b es).buffer < 2 ^ 32
    → Pointed (add_entries b es) (done ++ es)
unfolding add_entries
add_entries-Pointed_from b done [] p h small = rw append-nil p
add_entries-Pointed_from b done ((key, val) ∷ es) p (fits, h) small =
    let u' = add-Building b done key val p.building fits.0 fits.1 in
    let bigger = done ++ ((key, val) ∷ []) in
    let small' : length b.buffer < 2 ^ 32 = omega (
      arith,
      length-add b done key val p.building fits.0 fits.1,
      length-add_entries (add b key val) bigger es u' h,
    ) in
    rw (sym (append_assoc done ((key, val) ∷ []) es)) (
      add_entries-Pointed_from (add b key val) bigger es
        (add-Pointed b done key val p fits.0 fits.1 small') h small)

-- A new builder that these entries were added to.
pub add_entries-Pointed :
    (interval : ℕ) (es : List (Bytes × Bytes))
    → All Fits es
    → length (add_entries (new_builder interval) es).buffer < 2 ^ 32
    → Pointed (add_entries (new_builder interval) es) es
add_entries-Pointed interval es h small =
    add_entries-Pointed_from (new_builder interval) [] es
      (record {
        building = new_builder-Building interval;
        more = [];
        restarts = unfold new_builder in refl;
        points = tt;
      })
      h small
