-- ===== src/FileName.antt =====
-- filename.hpp and filename.cpp: the names of a database's files. A name is the list of its characters.
pub mod Numbers
pub mod Parses
use ambar.Prelude.{
  ℕ, zero, suc, ◌+◌, ◌-◌, ◌*◌, ◌/◌, ◌%◌, ◌^◌, Bool, true, false, ◌&&◌, ◌||◌, Option, none, some,
  List, [], ◌∷◌, ◌++◌, Bytes, length, take, drop, replicate, ltb, ◌==◌, ◌>>=◌, if◌then◌else◌,
}

-- `FileType`
pub data FileType : Type 0 where
  log_type : FileType
  lock_type : FileType
  table_type : FileType
  descriptor_type : FileType
  current_type : FileType
  temp_type : FileType
  info_log_type : FileType

-- "log", "sst", "dbtmp", "MANIFEST-", "CURRENT", "LOCK", "LOG" and "LOG.old".
abbrev pub log_suffix : Bytes
log_suffix = 108 ∷ 111 ∷ 103 ∷ []

abbrev pub table_suffix : Bytes
table_suffix = 115 ∷ 115 ∷ 116 ∷ []

abbrev pub temp_suffix : Bytes
temp_suffix = 100 ∷ 98 ∷ 116 ∷ 109 ∷ 112 ∷ []

abbrev pub manifest_prefix : Bytes
manifest_prefix = 77 ∷ 65 ∷ 78 ∷ 73 ∷ 70 ∷ 69 ∷ 83 ∷ 84 ∷ 45 ∷ []

abbrev pub current_name : Bytes
current_name = 67 ∷ 85 ∷ 82 ∷ 82 ∷ 69 ∷ 78 ∷ 84 ∷ []

abbrev pub lock_name : Bytes
lock_name = 76 ∷ 79 ∷ 67 ∷ 75 ∷ []

abbrev pub info_log_name : Bytes
info_log_name = 76 ∷ 79 ∷ 71 ∷ []

abbrev pub old_info_log_name : Bytes
old_info_log_name = 76 ∷ 79 ∷ 71 ∷ 46 ∷ 111 ∷ 108 ∷ 100 ∷ []

-- The equality of two views.
unfoldable pub same_bytes : Bytes → Bytes → Bool
same_bytes [] [] = true
same_bytes [] (y ∷ ys) = false
same_bytes (x ∷ xs) [] = false
same_bytes (x ∷ xs) (y ∷ ys) = if x == y then same_bytes xs ys else false

-- The loop of `parse_number`, on the characters that are left, and `result`.
unfoldable pub parse_digits : Bytes → ℕ → Option ℕ
parse_digits [] result = some result
parse_digits (c ∷ text) result =
    let digit = c - 48 in
    let more = parse_digits text (result * 10 + digit) in
    if ltb c 48 || ltb 57 c
    then none
    else if ltb ((2 ^ 64 - 1 - digit) / 10) result
    then none
    else more

unfoldable pub parse_number : Bytes → Option ℕ
unfolding parse_digits
parse_number text = if length text == 0 || ltb 20 (length text) then none else parse_digits text 0

-- What `%llu` prints of a number with at most this many digits.
unfoldable pub print_digits : ℕ → ℕ → Bytes
print_digits zero number = []
print_digits (suc digits) number =
    let front = print_digits digits (number / 10) in
    if ltb number 10 then (48 + number) ∷ [] else front ++ ((48 + number % 10) ∷ [])

-- What `%06llu` prints of a number of 64 bits.
unfoldable pub print_number : ℕ → Bytes
print_number number =
    let digits = print_digits 20 number in replicate (6 - length digits) 48 ++ digits

-- The formats `/%06llu.%s` and `/MANIFEST-%06llu`, which fit into the 64 bytes of `buf`.
unfoldable pub numbered : Bytes → ℕ → Bytes → Bytes
numbered dbname number suffix = dbname ++ (47 ∷ (print_number number ++ (46 ∷ suffix)))

unfoldable pub log_file_name : Bytes → ℕ → Bytes
log_file_name dbname number = numbered dbname number log_suffix

unfoldable pub table_file_name : Bytes → ℕ → Bytes
table_file_name dbname number = numbered dbname number table_suffix

unfoldable pub temp_file_name : Bytes → ℕ → Bytes
temp_file_name dbname number = numbered dbname number temp_suffix

unfoldable pub descriptor_file_name : Bytes → ℕ → Bytes
descriptor_file_name dbname number = dbname ++ (47 ∷ (manifest_prefix ++ print_number number))

abbrev pub current_file_name : Bytes → Bytes
current_file_name dbname = dbname ++ (47 ∷ current_name)

abbrev pub lock_file_name : Bytes → Bytes
lock_file_name dbname = dbname ++ (47 ∷ lock_name)

abbrev pub info_log_file_name : Bytes → Bytes
info_log_file_name dbname = dbname ++ (47 ∷ info_log_name)

-- `filename.find('.')`
unfoldable pub find_dot : Bytes → Option ℕ
find_dot [] = none
find_dot (c ∷ name) =
    let later = find_dot name in if c == 46 then some 0 else later >>= λ (i : ℕ). some (suc i)

-- The type that a suffix tells.
unfoldable pub suffix_type : Bytes → Option FileType
unfolding same_bytes
suffix_type suffix =
    if same_bytes suffix log_suffix
    then some log_type
    else if same_bytes suffix table_suffix
    then some table_type
    else if same_bytes suffix temp_suffix
    then some temp_type
    else none

-- A name that begins with neither of the words.
unfoldable pub parse_numbered : Bytes → Option (ℕ × FileType)
parse_numbered name = find_dot name >>= λ (dot : ℕ).
    if dot == 0
    then none
    else parse_number (take dot name) >>= λ (value : ℕ).
        suffix_type (drop (dot + 1) name) >>= λ (kind : FileType). some (value, kind)

unfoldable pub parse_file_name : Bytes → Option (ℕ × FileType)
parse_file_name name =
    if same_bytes name current_name
    then some (0, current_type)
    else if same_bytes name lock_name
    then some (0, lock_type)
    else if same_bytes name info_log_name || same_bytes name old_info_log_name
    then some (0, info_log_type)
    else if same_bytes (take 9 name) manifest_prefix
    then (parse_number (drop 9 name) >>= λ (value : ℕ). some (value, descriptor_type))
    else parse_numbered name
