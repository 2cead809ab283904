-- ===== src/Tests/Names.antt =====
-- filename.cpp on a few names.
use ambar.Prelude.{◌<◌, ◌^◌, none, some, [], ◌∷◌, Bytes, All, arith, ◌≡◌, refl}
use ambar.FileName.{
  log_type, table_type, temp_type, descriptor_type, log_file_name, table_file_name, temp_file_name,
  descriptor_file_name, parse_file_name, parse_number, parse_digits,
}
use ambar.FileName.Numbers.{IsDigit, decimal, parse_number-decimal}
use ambar.FileName.Parses.{base_name, parse_file_name-names}

abbrev some_directory : Bytes
some_directory = 47 ∷ 100 ∷ 98 ∷ []

parse_file_name-names_example :
    (parse_file_name (base_name some_directory (log_file_name some_directory 1234567))
      ≡ some (1234567, log_type))
    × (parse_file_name (base_name some_directory (table_file_name some_directory 1234567))
        ≡ some (1234567, table_type))
    × (parse_file_name (base_name some_directory (temp_file_name some_directory 1234567))
        ≡ some (1234567, temp_type))
    × (parse_file_name (base_name some_directory (descriptor_file_name some_directory 1234567))
        ≡ some (1234567, descriptor_type))
parse_file_name-names_example = parse_file_name-names some_directory 1234567 (omega arith)

-- "0042", and the number that would wrap to 1.
forty_two_parses : parse_number (48 ∷ 48 ∷ 52 ∷ 50 ∷ []) ≡ some 42
unfolding parse_number parse_digits
forty_two_parses = refl

overflow_refused :
    parse_number (
      49 ∷ 56 ∷ 52 ∷ 52 ∷ 54 ∷ 55 ∷ 52 ∷ 52 ∷ 48 ∷ 55 ∷ 51 ∷ 55 ∷ 48 ∷ 57 ∷ 53 ∷ 53 ∷ 49 ∷ 54 ∷ 49
      ∷ 55 ∷ [])
    ≡ none
unfolding parse_number parse_digits
overflow_refused = refl

parse_number-decimal_example :
    All IsDigit (48 ∷ 48 ∷ 52 ∷ 50 ∷ []) × (42 ≡ decimal (48 ∷ 48 ∷ 52 ∷ 50 ∷ []) 0) × (42 < 2 ^ 64)
parse_number-decimal_example = parse_number-decimal (48 ∷ 48 ∷ 52 ∷ 50 ∷ []) 42 forty_two_parses
