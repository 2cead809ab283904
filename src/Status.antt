-- ===== src/Status.antt =====
-- status.hpp and status.cpp: a returned error. `ok` has no message; the other codes carry one.
use Prim.Native.String.{String, ◌++◌}
use text.Mathlib.Text.{◌==◌}
use ambar.Prelude.{Bool, true, false, if◌then◌else◌}

pub data Status : Type 0 where
  ok : Status
  not_found : String → Status
  corruption : String → Status
  io_error : String → Status
  invalid_argument : String → Status
  not_supported : String → Status

abbrev pub is_ok : Status → Bool
is_ok ok = true
is_ok _ = false

named : String → String → String
named name message = if message == "" then name else name ++ (": " ++ message)

-- `to_string`
unfoldable pub to_string : Status → String
unfolding named
to_string ok = "ok"
to_string (not_found message) = named "not found" message
to_string (corruption message) = named "corruption" message
to_string (io_error message) = named "io error" message
to_string (invalid_argument message) = named "invalid argument" message
to_string (not_supported message) = named "not supported" message
