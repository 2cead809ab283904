-- ===== src/BlockBuilder/Chain.antt =====
-- What the bytes of a block hold: entries, each given by what it does not share with the key before.
use native.Mathlib.Nat.{mod-eq_of_lt}
use ambar.Prelude.{
  ℕ, ◌+◌, ◌-◌, ◌*◌, ◌≤◌, ◌<◌, ◌^◌, u32, List, [], ◌∷◌, ◌++◌, append_assoc, append-nil, Bytes,
  length, length-append, length-drop, take, drop, ltb, arith, ◌≡◌, refl, ap, sym, ◌∙◌, Bool-cases,
  All, inl, inr,
}
use ambar.Encoding.{put_fixed32, encode_fixed32}
use ambar.Encoding.Varint.{groups, put_varint32-groups, length-groups}
use ambar.BlockBuilder.{
  BlockBuilder, new_builder, shared_prefix, put_entry, add, put_restarts, finish,
  current_size_estimate,
}

-- The bytes of an entry.
unfoldable pub entry_bytes : ℕ → Bytes → Bytes → Bytes
entry_bytes shared key val =
    groups 4 shared
    ++ (groups 4 (length key - shared) ++ (groups 4 (length val) ++ (drop shared key ++ val)))

-- The bytes hold these entries behind a key.
abbrev pub Holds : Bytes → Bytes → List (Bytes × Bytes) → Type 0
Holds prev bytes [] = bytes ≡ []
Holds prev bytes ((key, val) ∷ es) =
    (shared : ℕ) × (rest : Bytes) × (shared ≤ length prev)
    × (shared ≤ length key)
    × (take shared prev ≡ take shared key)
    × (bytes ≡ entry_bytes shared key val ++ rest)
    × Holds key rest es

-- The last key, from one that was before.
abbrev pub last_of : Bytes → List (Bytes × Bytes) → Bytes
last_of prev [] = prev
last_of prev ((key, val) ∷ es) = last_of key es

pub put_entry-bytes :
    (buffer : Bytes) (shared : ℕ) (key val : Bytes)
    → shared < 2 ^ 32
    → length key < 2 ^ 32
    → length val < 2 ^ 32
    → put_entry buffer shared key val ≡ buffer ++ entry_bytes shared key val
unfolding put_entry entry_bytes
put_entry-bytes buffer shared key val hs hk hv =
    let n = length key - shared in
    let hn : n < 2 ^ 32 = omega arith in
    rw
      (
        mod-eq_of_lt hs,
        mod-eq_of_lt hn,
        mod-eq_of_lt hv,
        put_varint32-groups buffer shared hs,
        put_varint32-groups (buffer ++ groups 4 shared) n hn,
        put_varint32-groups ((buffer ++ groups 4 shared) ++ groups 4 n) (length val) hv,
      )
      (simp append_assoc refl)

pub shared_prefix_lem :
    (last key : Bytes)
    → (shared_prefix last key ≤ length last)
      × (shared_prefix last key ≤ length key)
      × (take (shared_prefix last key) last ≡ take (shared_prefix last key) key)
unfolding shared_prefix
shared_prefix_lem [] key = (omega arith, omega arith, refl)
shared_prefix_lem (x ∷ last) [] = (omega arith, omega arith, refl)
shared_prefix_lem (x ∷ last) (y ∷ key) = ground (arith, shared_prefix_lem last key)

-- An entry more.
pub Holds-append :
    (prev bytes key val : Bytes) (es : List (Bytes × Bytes)) (shared : ℕ)
    → Holds prev bytes es
    → shared ≤ length (last_of prev es)
    → shared ≤ length key
    → take shared (last_of prev es) ≡ take shared key
    → Holds prev (bytes ++ entry_bytes shared key val) (es ++ ((key, val) ∷ []))
Holds-append prev bytes key val [] shared h hp hk same = (
  shared,
  [],
  hp,
  hk,
  same,
  ap (λ (b : Bytes). b ++ entry_bytes shared key val) h
      ∙ sym (append-nil (entry_bytes shared key val)),
  refl,
)
Holds-append prev bytes key val ((k, v) ∷ es) shared (s, rest, a, b, c, d, more) hp hk same = (
  s,
  rest ++ entry_bytes shared key val,
  a,
  b,
  c,
  ap (λ (b : Bytes). b ++ entry_bytes shared key val) d
      ∙ append_assoc (entry_bytes s k v) rest (entry_bytes shared key val),
  Holds-append k rest key val es shared more hp hk same,
)

-- A builder that these entries were added to.
pub record Building (b : BlockBuilder) (es : List (Bytes × Bytes)) : Type 0 where
  pub holds : Holds [] b.buffer es
  pub last : b.last_key ≡ last_of [] es
  pub first_restart : (more : List ℕ) × (b.restarts ≡ 0 ∷ more)

pub new_builder-Building : (interval : ℕ) → Building (new_builder interval) []
unfolding new_builder
new_builder-Building interval = record { holds = refl; last = refl; first_restart = ([], refl) }

last_of-append :
    (prev key val : Bytes) (es : List (Bytes × Bytes))
    → last_of prev (es ++ ((key, val) ∷ [])) ≡ key
last_of-append prev key val [] = refl
last_of-append prev key val ((k, v) ∷ es) = last_of-append k key val es

pub length-entry_bytes :
    (shared : ℕ) (key val : Bytes)
    → 3 + ((length key - shared) + length val) ≤ length (entry_bytes shared key val)
unfolding entry_bytes
length-entry_bytes shared key val =
    let n = length key - shared in
    let tail = drop shared key ++ val in
    omega (
      arith,
      length-append (groups 4 shared) (groups 4 n ++ (groups 4 (length val) ++ tail)),
      length-append (groups 4 n) (groups 4 (length val) ++ tail),
      length-append (groups 4 (length val)) tail,
      length-append (drop shared key) val,
      length-drop shared key,
      length-groups 4 shared,
      length-groups 4 n,
      length-groups 4 (length val),
    )

-- What `add` makes of the buffer and the restarts, either way.
pub add-shares :
    (b : BlockBuilder) (es : List (Bytes × Bytes)) (key val : Bytes)
    → Building b es
    → length key < 2 ^ 32
    → length val < 2 ^ 32
    → (shared : ℕ) × ((add b key val).buffer ≡ b.buffer ++ entry_bytes shared key val)
      × (shared ≤ length (last_of [] es))
      × (shared ≤ length key)
      × (take shared (last_of [] es) ≡ take shared key)
unfolding add
add-shares b es key val u hk hv =
    let common = shared_prefix_lem b.last_key key in
    let n = shared_prefix b.last_key key in
    elim (Bool-cases (ltb b.since_restart b.restart_interval)) [
      | inl near ↦ (
        n,
        rw near (put_entry-bytes b.buffer n key val (omega (arith, common.1)) hk hv),
        rw (← u.last) common.0,
        common.1,
        rw (← u.last) common.2,
      )
      | inr far ↦ (
        0,
        rw far (put_entry-bytes b.buffer 0 key val (omega arith) hk hv),
        omega arith,
        omega arith,
        refl,
      )
    ]

add-last : (b : BlockBuilder) (key val : Bytes) → (add b key val).last_key ≡ key
unfolding add
add-last b key val = ground arith

add-restarts :
    (b : BlockBuilder) (key val : Bytes) (more : List ℕ)
    → b.restarts ≡ 0 ∷ more
    → (more' : List ℕ) × ((add b key val).restarts ≡ 0 ∷ more')
unfolding add
add-restarts b key val more h = elim (Bool-cases (ltb b.since_restart b.restart_interval)) [
  | inl near ↦ (more, rw near h)
  | inr far ↦ (more ++ (u32 (length b.buffer) ∷ []), rw (far, h) refl)
]

pub add-Building :
    (b : BlockBuilder) (es : List (Bytes × Bytes)) (key val : Bytes)
    → Building b es
    → length key < 2 ^ 32
    → length val < 2 ^ 32
    → Building (add b key val) (es ++ ((key, val) ∷ []))
add-Building b es key val u hk hv =
    let (shared, bytes, hp, hs, same) = add-shares b es key val u hk hv in
    let restarts = add-restarts b key val u.first_restart.0 u.first_restart.1 in
    record {
      holds = rw bytes (Holds-append [] b.buffer key val es shared u.holds hp hs same);
      last = add-last b key val ∙ sym (last_of-append [] key val es);
      first_restart = restarts;
    }

-- Entries added one after another.
unfoldable pub add_entries : BlockBuilder → List (Bytes × Bytes) → BlockBuilder
add_entries b [] = b
add_entries b ((key, val) ∷ es) = add_entries (add b key val) es

-- Keys and values have a length that 32 bits hold.
abbrev pub Fits : Bytes × Bytes → Type 0
Fits e = (length e.0 < 2 ^ 32) × (length e.1 < 2 ^ 32)

pub add_entries-Building :
    (b : BlockBuilder) (done es : List (Bytes × Bytes))
    → Building b done
    → All Fits es
    → Building (add_entries b es) (done ++ es)
unfolding add_entries
add_entries-Building b done [] u h = rw append-nil u
add_entries-Building b done ((key, val) ∷ es) u (fits, h) =
    let bigger = done ++ ((key, val) ∷ []) in
    rw (sym (append_assoc done ((key, val) ∷ []) es)) (
      add_entries-Building (add b key val) bigger es (add-Building b done key val u fits.0 fits.1)
        h)

-- The restarts and their count behind the entries.
unfoldable pub restart_bytes : List ℕ → Bytes
restart_bytes [] = []
restart_bytes (r ∷ rs) = encode_fixed32 r ++ restart_bytes rs

put_restarts-bytes :
    (rs : List ℕ) (buffer : Bytes) → put_restarts buffer rs ≡ buffer ++ restart_bytes rs
unfolding put_restarts restart_bytes put_fixed32
put_restarts-bytes [] buffer = sym (append-nil buffer)
put_restarts-bytes (r ∷ rs) buffer =
    put_restarts-bytes rs (buffer ++ encode_fixed32 r)
    ∙ append_assoc buffer (encode_fixed32 r) (restart_bytes rs)

pub length-restart_bytes : (rs : List ℕ) → length (restart_bytes rs) ≡ length rs * 4
unfolding restart_bytes encode_fixed32
length-restart_bytes [] = omega arith
length-restart_bytes (r ∷ rs) = omega (arith, length-restart_bytes rs)

pub finish-bytes :
    (b : BlockBuilder)
    → (finish b).buffer
      ≡ b.buffer ++ (restart_bytes b.restarts ++ encode_fixed32 (u32 (length b.restarts)))
unfolding finish put_fixed32
finish-bytes b =
    ap (λ (bs : Bytes). bs ++ encode_fixed32 (u32 (length b.restarts)))
      (put_restarts-bytes b.restarts b.buffer)
    ∙ append_assoc b.buffer (restart_bytes b.restarts) (encode_fixed32 (u32 (length b.restarts)))

-- The size that current_size_estimate tells of a builder is the length of the block that finish
-- makes of it, in every state of the builder.
pub length-finish : (b : BlockBuilder) → length (finish b).buffer ≡ current_size_estimate b
unfolding current_size_estimate encode_fixed32
length-finish b = omega (
  arith,
  ap (λ (bs : Bytes). length bs) (finish-bytes b),
  length-append b.buffer (restart_bytes b.restarts ++ encode_fixed32 (u32 (length b.restarts))),
  length-append (restart_bytes b.restarts) (encode_fixed32 (u32 (length b.restarts))),
  length-restart_bytes b.restarts,
)
