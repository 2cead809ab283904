-- ===== src/BlockBuilder.antt =====
-- block_builder.hpp and block_builder.cpp: a block under construction.
pub mod Chain
pub mod Points
use ambar.Prelude.{
  ℕ, zero, suc, ◌+◌, ◌-◌, ◌*◌, u32, Bool, true, false, List, [], ◌∷◌, ◌++◌, Bytes, length, drop,
  ltb, ◌==◌, if◌then◌else◌,
}
use ambar.Encoding.{put_varint32, put_fixed32}

-- The comparator is read by an assertion alone, and is left out.
pub record BlockBuilder : Type 0 where
  pub restart_interval : ℕ
  pub buffer : Bytes
  pub restarts : List ℕ
  pub since_restart : ℕ
  pub entries : ℕ
  pub finished : Bool
  pub last_key : Bytes

unfoldable pub reset : BlockBuilder → BlockBuilder
reset b = record b {
  buffer = [];
  restarts = 0 ∷ [];
  since_restart = 0;
  entries = 0;
  finished = false;
  last_key = [];
}

-- The constructor, which resets.
unfoldable pub new_builder : ℕ → BlockBuilder
unfolding reset
new_builder restart_interval = reset (record {
  restart_interval = restart_interval;
  buffer = [];
  restarts = [];
  since_restart = 0;
  entries = 0;
  finished = false;
  last_key = [];
})

unfoldable pub current_size_estimate : BlockBuilder → ℕ
current_size_estimate b = length b.buffer + length b.restarts * 4 + 4

-- `while (shared < limit && last_key_[shared] == key[shared]) ++shared`
unfoldable pub shared_prefix : Bytes → Bytes → ℕ
shared_prefix [] key = 0
shared_prefix (x ∷ last) [] = 0
shared_prefix (x ∷ last) (y ∷ key) = if x == y then suc (shared_prefix last key) else 0

-- What is appended of an entry that shares so much with the key before it.
unfoldable pub put_entry : Bytes → ℕ → Bytes → Bytes → Bytes
put_entry buffer shared key val =
    let non_shared = length key - shared in
    let lengths =
      put_varint32 (put_varint32 (put_varint32 buffer (u32 shared)) (u32 non_shared))
        (u32 (length val)) in
    (lengths ++ drop shared key) ++ val

unfoldable pub add : BlockBuilder → Bytes → Bytes → BlockBuilder
add b key val =
    if ltb b.since_restart b.restart_interval
    then record b {
      buffer = put_entry b.buffer (shared_prefix b.last_key key) key val;
      last_key = key;
      since_restart = b.since_restart + 1;
      entries = b.entries + 1;
    }
    else record b {
      buffer = put_entry b.buffer 0 key val;
      restarts = b.restarts ++ (u32 (length b.buffer) ∷ []);
      last_key = key;
      since_restart = 1;
      entries = b.entries + 1;
    }

-- The loop over the restarts.
unfoldable pub put_restarts : Bytes → List ℕ → Bytes
put_restarts buffer [] = buffer
put_restarts buffer (restart ∷ restarts) = put_restarts (put_fixed32 buffer restart) restarts

-- The builder, whose buffer is the block.
unfoldable pub finish : BlockBuilder → BlockBuilder
finish b = record b {
  buffer = put_fixed32 (put_restarts b.buffer b.restarts) (u32 (length b.restarts));
  finished = true;
}
