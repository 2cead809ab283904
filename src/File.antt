-- ===== src/File.antt =====
-- file.hpp: the interfaces through which the engine writes and reads files. Their implementations are
-- system calls; a component takes the interface as a parameter, with the behaviour that file.hpp states.
use ambar.Prelude.{ℕ, ◌≡◌, ◌++◌, Bytes, take, drop}
use ambar.Status.{Status, ok}

-- `contents` is what the file holds, buffered bytes included.
pub record WritableFile (F : Type 0) : Type 0 where
  pub append : Bytes → F → Status × F
  pub flush : F → Status × F
  pub sync : F → Status × F
  pub close : F → Status × F
  pub contents : F → Bytes
  pub append_appends :
      (bytes : Bytes) (f f' : F) → append bytes f ≡ (ok, f') → contents f' ≡ contents f ++ bytes

-- `left` is what has not been read. Up to n bytes are read, fewer at the end alone.
pub record SequentialFile (R : Type 0) : Type 0 where
  pub read : ℕ → R → Status × Bytes × R
  pub left : R → Bytes
  pub read_reads :
      (n : ℕ) (r r' : R) (chunk : Bytes)
      → read n r ≡ (ok, chunk, r')
      → (chunk ≡ take n (left r)) × (left r' ≡ drop n (left r))
