-- ===== src/Tests/Table.antt =====
-- format.cpp on a footer.
use ambar.Prelude.{[], ◌∷◌, ◌++◌, arith, ◌≡◌}
use ambar.Status.{ok}
use ambar.Format.{Footer, encode_footer, decode_footer}
use ambar.Format.RoundTrip.{decode-encode_footer}

abbrev small_footer : Footer
small_footer = record {
  metaindex_handle = record { offset = 5000; size = 300 };
  index_handle = record { offset = 5305; size = 77 };
}

abbrev empty_footer : Footer
empty_footer = record {
  metaindex_handle = record { offset = 0; size = 0 };
  index_handle = record { offset = 0; size = 0 };
}

decode-encode_footer_example :
    decode_footer empty_footer (encode_footer small_footer [] ++ (9 ∷ []))
    ≡ (ok, small_footer, 9 ∷ [])
decode-encode_footer_example =
    decode-encode_footer empty_footer small_footer (9 ∷ [])
      (record { offset_fits = omega arith; size_fits = omega arith })
      (record { offset_fits = omega arith; size_fits = omega arith })
