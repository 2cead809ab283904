-- ===== src/Format/RoundTrip.antt =====
-- format.cpp: a footer that was written is read back.
use ambar.Prelude.{
  ℕ, ◌-◌, ◌≤◌, ◌<◌, ◌^◌, bit_or, ◌<<<◌, [], ◌++◌, append_assoc, Bytes, length, take, drop,
  replicate, ltb, arith, ◌≡◌, refl, ap, sym, ◌∙◌, length-append, length-replicate, take_all,
  take-append, drop-append, drop-drop, u64, false,
}
use ambar.Encoding.{put_fixed32, encode_fixed32, decode_fixed32}
use ambar.Encoding.Varint.{groups, put_varint64-groups, length-groups, get-groups64}
use ambar.Status.{ok}
use ambar.Format.{
  BlockHandle, Footer, encode_handle, decode_handle, encode_footer, decode_footer, resize,
}

-- The fields of a handle have 64 bits.
pub record FitsHandle (h : BlockHandle) : Type 0 where
  pub offset_fits : h.offset < 2 ^ 64
  pub size_fits : h.size < 2 ^ 64

handle_bytes : BlockHandle → Bytes
handle_bytes h = groups 9 h.offset ++ groups 9 h.size

encode_handle-bytes :
    (h : BlockHandle) (dst : Bytes) → FitsHandle h → encode_handle h dst ≡ dst ++ handle_bytes h
unfolding encode_handle handle_bytes
encode_handle-bytes h dst f =
    rw
      (
        put_varint64-groups dst h.offset f.offset_fits,
        put_varint64-groups (dst ++ groups 9 h.offset) h.size f.size_fits,
      )
      (append_assoc dst (groups 9 h.offset) (groups 9 h.size))

length-handle_bytes : (h : BlockHandle) → length (handle_bytes h) ≤ 20
unfolding handle_bytes
length-handle_bytes h = omega (
  arith,
  length-append (groups 9 h.offset) (groups 9 h.size),
  length-groups 9 h.offset,
  length-groups 9 h.size,
)

decode-handle_bytes :
    (g h : BlockHandle) (rest : Bytes)
    → FitsHandle h
    → decode_handle g (handle_bytes h ++ rest) ≡ (ok, h, rest)
unfolding decode_handle handle_bytes
decode-handle_bytes g h rest f = rw (append_assoc (groups 9 h.offset) (groups 9 h.size) rest) (
    ground (
      arith,
      get-groups64 h.offset (groups 9 h.size ++ rest) f.offset_fits,
      get-groups64 h.size rest f.size_fits,
    ))

-- The padded handles, and the eight bytes of the magic number.
padded : Footer → Bytes
padded f = resize (handle_bytes f.metaindex_handle ++ handle_bytes f.index_handle) 40

magic_bytes : Bytes
magic_bytes = encode_fixed32 0x1a73e850 ++ encode_fixed32 0x9d4f2b6c

padded-zeros :
    (f : Footer)
    → padded f
      ≡ handle_bytes f.metaindex_handle
        ++ (handle_bytes f.index_handle
            ++ replicate
                (40 - length (handle_bytes f.metaindex_handle ++ handle_bytes f.index_handle))
                0)
unfolding padded
padded-zeros f =
    let m = handle_bytes f.metaindex_handle in
    let i = handle_bytes f.index_handle in
    let short : length (m ++ i) ≤ 40 = omega (
      arith,
      length-append m i,
      length-handle_bytes f.metaindex_handle,
      length-handle_bytes f.index_handle,
    ) in
    rw (take_all 40 (m ++ i) short) (append_assoc m i (replicate (40 - length (m ++ i)) 0))

length-padded : (f : Footer) → length (padded f) ≡ 40
length-padded f =
    let m = handle_bytes f.metaindex_handle in
    let i = handle_bytes f.index_handle in
    let zeros : Bytes = replicate (40 - length (m ++ i)) 0 in
    omega (
      arith,
      ap (λ (bs : Bytes). length bs) (padded-zeros f),
      length-append m (i ++ zeros),
      length-append i zeros,
      length-append m i,
      length-replicate {A = ℕ} (40 - length (m ++ i)) 0,
      length-handle_bytes f.metaindex_handle,
      length-handle_bytes f.index_handle,
    )

length-magic_bytes : length magic_bytes ≡ 8
unfolding magic_bytes encode_fixed32
length-magic_bytes = refl

encode_footer-bytes :
    (f : Footer)
    → FitsHandle f.metaindex_handle
    → FitsHandle f.index_handle
    → encode_footer f [] ≡ padded f ++ magic_bytes
unfolding encode_footer padded magic_bytes put_fixed32
encode_footer-bytes f hm hi =
    rw
      (
        encode_handle-bytes f.metaindex_handle [] hm,
        encode_handle-bytes f.index_handle (handle_bytes f.metaindex_handle) hi,
      )
      (append_assoc (padded f) (encode_fixed32 0x1a73e850) (encode_fixed32 0x9d4f2b6c))

-- The steps of the reader on these bytes.
magic-behind :
    (front rest : Bytes)
    → length front ≡ 40
    → bit_or
        (u64 (decode_fixed32 (drop 44 (front ++ (magic_bytes ++ rest))) <<< 32))
        (decode_fixed32 (drop 40 (front ++ (magic_bytes ++ rest))))
      ≡ 0x9d4f2b6c1a73e850
unfolding magic_bytes encode_fixed32 decode_fixed32
magic-behind front rest h =
    let all = front ++ (magic_bytes ++ rest) in
    rw (sym (drop-drop 40 4 all), drop-append 40 front (magic_bytes ++ rest) (sym h)) refl

-- What the reader comes to where each of its steps goes well.
decoded :
    (g : Footer) (input : Bytes) (m i : BlockHandle) (remaining remaining' : Bytes)
    → 48 ≤ length input
    → bit_or (u64 (decode_fixed32 (drop 44 input) <<< 32)) (decode_fixed32 (drop 40 input))
      ≡ 0x9d4f2b6c1a73e850
    → decode_handle g.metaindex_handle (take 40 input) ≡ (ok, m, remaining)
    → decode_handle g.index_handle remaining ≡ (ok, i, remaining')
    → decode_footer g input ≡ (ok, record { metaindex_handle = m; index_handle = i }, drop 48 input)
unfolding decode_footer
decoded g input m i remaining remaining' long magic first second =
    let enough : ltb (length input) 48 ≡ false = ground arith in
    rw (enough, magic, first, second) refl

-- A footer whose handles have offsets and sizes of 64 bits is read back from what encode_to wrote
-- of it, into any footer, and what follows it is left.
pub decode-encode_footer :
    (g f : Footer) (rest : Bytes)
    → FitsHandle f.metaindex_handle
    → FitsHandle f.index_handle
    → decode_footer g (encode_footer f [] ++ rest) ≡ (ok, f, rest)
decode-encode_footer g f rest hm hi =
    let size = length-padded f in
    let zeros : Bytes =
      replicate (40 - length (handle_bytes f.metaindex_handle ++ handle_bytes f.index_handle)) 0 in
    let input : Bytes = padded f ++ (magic_bytes ++ rest) in
    let long : 48 ≤ length input = omega (
      arith,
      length-append (padded f) (magic_bytes ++ rest),
      length-append magic_bytes rest,
      length-magic_bytes,
    ) in
    let behind : drop 48 input ≡ rest =
      sym (drop-drop 40 8 input)
      ∙ ap (drop 8) (drop-append 40 (padded f) (magic_bytes ++ rest) (sym size))
      ∙ drop-append 8 magic_bytes rest (sym length-magic_bytes) in
    let first : decode_handle g.metaindex_handle (take 40 input)
        ≡ (ok, f.metaindex_handle, handle_bytes f.index_handle ++ zeros) =
      ap (decode_handle g.metaindex_handle)
        (take-append 40 (padded f) (magic_bytes ++ rest) (sym size) ∙ padded-zeros f)
      ∙ decode-handle_bytes g.metaindex_handle f.metaindex_handle
          (handle_bytes f.index_handle ++ zeros) hm in
    ap (decode_footer g) (
      ap (λ (bs : Bytes). bs ++ rest) (encode_footer-bytes f hm hi)
      ∙ append_assoc (padded f) magic_bytes rest)
    ∙ decoded g input f.metaindex_handle f.index_handle (handle_bytes f.index_handle ++ zeros) zeros
        long (magic-behind (padded f) rest size) first
        (decode-handle_bytes g.index_handle f.index_handle zeros hi)
    ∙ ap (λ (bs : Bytes). (ok, f, bs)) behind
