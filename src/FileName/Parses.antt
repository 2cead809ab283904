-- ===== src/FileName/Parses.antt =====
-- filename.cpp: the names that are made are parsed again.
use ambar.Prelude.{
  ℕ, ◌+◌, ◌<◌, ◌^◌, false, some, [], ◌∷◌, ◌++◌, Bytes, length, take, drop, take-append, drop-append,
  drop-drop, All, ◌==◌, ◌>>=◌, arith, ◌≡◌, refl, ap, sym, ◌∙◌,
}
use ambar.FileName.{
  FileType, log_type, table_type, temp_type, descriptor_type, log_suffix, table_suffix, temp_suffix,
  manifest_prefix, same_bytes, parse_number, print_number, numbered, log_file_name, table_file_name,
  temp_file_name, descriptor_file_name, find_dot, suffix_type, parse_numbered, parse_file_name,
}
use ambar.FileName.Numbers.{IsDigit, print_number-IsDigit, length-print_number, parse-print_number}

-- What `substr(dbname.size() + 1)` leaves of a path.
abbrev pub base_name : Bytes → Bytes → Bytes
base_name dbname path = drop (length dbname + 1) path

base_name-path : (dbname name : Bytes) → base_name dbname (dbname ++ (47 ∷ name)) ≡ name
base_name-path dbname name =
    sym (drop-drop (length dbname) 1 (dbname ++ (47 ∷ name)))
    ∙ ap (drop 1) (drop-append (length dbname) dbname (47 ∷ name) refl)

find_dot-append :
    (xs rest : Bytes) → All IsDigit xs → find_dot (xs ++ (46 ∷ rest)) ≡ some (length xs)
unfolding find_dot
find_dot-append [] rest h = refl
find_dot-append (x ∷ xs) rest (h, hs) =
    let other : (x == 46) ≡ false = ground arith in rw (other, find_dot-append xs rest hs) refl

-- A name that begins with a digit is none of the words.
digit-first :
    (c : ℕ) (name : Bytes) → IsDigit c → parse_file_name (c ∷ name) ≡ parse_numbered (c ∷ name)
unfolding parse_file_name same_bytes
digit-first c name h =
    let no_current : (c == 67) ≡ false = ground arith in
    let no_lock : (c == 76) ≡ false = ground arith in
    let no_manifest : (c == 77) ≡ false = ground arith in rw (no_current, no_lock, no_manifest) refl

parse_numbered-append :
    (number suffix : Bytes) (n : ℕ) (kind : FileType)
    → All IsDigit number
    → 0 < length number
    → parse_number number ≡ some n
    → suffix_type suffix ≡ some kind
    → parse_numbered (number ++ (46 ∷ suffix)) ≡ some (n, kind)
unfolding parse_numbered
parse_numbered-append number suffix n kind digits nonempty value known =
    let some_left : (length number == 0) ≡ false = ground arith in
    let front : take (length number) (number ++ (46 ∷ suffix)) ≡ number =
      take-append (length number) number (46 ∷ suffix) refl in
    let behind : drop (length number + 1) (number ++ (46 ∷ suffix)) ≡ suffix =
      sym (drop-drop (length number) 1 (number ++ (46 ∷ suffix)))
      ∙ ap (drop 1) (drop-append (length number) number (46 ∷ suffix) refl) in
    rw (find_dot-append number suffix digits, ◌>>=◌, some_left, front, value, ◌>>=◌, behind, known)
      refl

parse_file_name-append :
    (number suffix : Bytes) (n : ℕ) (kind : FileType)
    → All IsDigit number
    → 0 < length number
    → parse_number number ≡ some n
    → suffix_type suffix ≡ some kind
    → parse_file_name (number ++ (46 ∷ suffix)) ≡ some (n, kind)
parse_file_name-append [] suffix n kind digits nonempty value known = absurd (omega arith)
parse_file_name-append (c ∷ number) suffix n kind digits nonempty value known =
    digit-first c (number ++ (46 ∷ suffix)) digits.0
    ∙ parse_numbered-append (c ∷ number) suffix n kind digits nonempty value known

parse_file_name-numbered :
    (dbname suffix : Bytes) (n : ℕ) (kind : FileType)
    → n < 2 ^ 64
    → suffix_type suffix ≡ some kind
    → parse_file_name (base_name dbname (numbered dbname n suffix)) ≡ some (n, kind)
unfolding numbered
parse_file_name-numbered dbname suffix n kind fits known =
    ap parse_file_name (base_name-path dbname (print_number n ++ (46 ∷ suffix)))
    ∙ parse_file_name-append (print_number n) suffix n kind (print_number-IsDigit n)
        (omega (arith, length-print_number n)) (parse-print_number n fits) known

parse_file_name-descriptor :
    (dbname : Bytes) (n : ℕ)
    → n < 2 ^ 64
    → parse_file_name (base_name dbname (descriptor_file_name dbname n)) ≡ some (n, descriptor_type)
unfolding descriptor_file_name
parse_file_name-descriptor dbname n fits =
    ap parse_file_name (base_name-path dbname (manifest_prefix ++ print_number n))
    ∙ unfold parse_file_name same_bytes in rw (parse-print_number n fits) refl

-- The names of logs, tables, temporary files and manifests with a number of 64 bits are parsed,
-- without their directory, into that number and their type.
pub parse_file_name-names :
    (dbname : Bytes) (n : ℕ)
    → n < 2 ^ 64
    → (parse_file_name (base_name dbname (log_file_name dbname n)) ≡ some (n, log_type))
      × (parse_file_name (base_name dbname (table_file_name dbname n)) ≡ some (n, table_type))
      × (parse_file_name (base_name dbname (temp_file_name dbname n)) ≡ some (n, temp_type))
      × (parse_file_name (base_name dbname (descriptor_file_name dbname n))
          ≡ some (n, descriptor_type))
unfolding log_file_name table_file_name temp_file_name suffix_type
parse_file_name-names dbname n fits = (
  parse_file_name-numbered dbname log_suffix n log_type fits refl,
  parse_file_name-numbered dbname table_suffix n table_type fits refl,
  parse_file_name-numbered dbname temp_suffix n temp_type fits refl,
  parse_file_name-descriptor dbname n fits,
)
