-- ===== src/Buffer/StaticBuffer.antt =====
-- include/async_frame/buffer.h: `StaticBuffer`. Storage is a list of bytes, a pointer into it an index, and
-- `size_t` arithmetic wraps.
use async_io_framework.Prelude.{ℕ, Bool, List, length, ◌==◌}
use async_io_framework.Prelude.Words.{add64, sub64}

-- `StaticBuffer<N>`; `N` is the length of `buf`.
pub record StaticBuffer : Type 0 where
  pub buf : List ℕ
  pub offset : ℕ

abbrev pub size : StaticBuffer → ℕ
size b = length b.buf

abbrev pub capacity : StaticBuffer → ℕ
capacity b = length b.buf

-- `data() + offset`, as an index into the storage.
abbrev pub seek : StaticBuffer → ℕ
seek b = b.offset

abbrev pub remain : StaticBuffer → ℕ
remain b = sub64 (capacity b) b.offset

abbrev pub done : StaticBuffer → Bool
done b = remain b == 0

abbrev pub clear : StaticBuffer → StaticBuffer
clear b = record b { offset = 0 }

-- `operator+=`
abbrev pub advance : ℕ → StaticBuffer → StaticBuffer
advance n b = record b { offset = add64 b.offset n }
