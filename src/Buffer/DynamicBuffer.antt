-- ===== src/Buffer/DynamicBuffer.antt =====
-- include/async_frame/buffer.h: `DynamicBuffer`. Storage is a list of bytes, a pointer into it an index, and
-- `size_t` arithmetic wraps.
use async_io_framework.Prelude.{ℕ, Bool, List, length, replicate, ◌==◌}
use async_io_framework.Prelude.Words.{add64, sub64}

-- `DynamicBuffer`. Its vector never grows after construction, so capacity and size agree.
pub record DynamicBuffer : Type 0 where
  pub buf : List ℕ
  pub offset : ℕ

abbrev pub make : ℕ → DynamicBuffer
make sz = record { buf = replicate sz 0; offset = 0 }

-- The default constructor.
abbrev pub make_default : DynamicBuffer
make_default = make 10

abbrev pub size : DynamicBuffer → ℕ
size b = length b.buf

abbrev pub capacity : DynamicBuffer → ℕ
capacity b = length b.buf

abbrev pub seek : DynamicBuffer → ℕ
seek b = b.offset

abbrev pub remain : DynamicBuffer → ℕ
remain b = sub64 (capacity b) b.offset

abbrev pub done : DynamicBuffer → Bool
done b = remain b == 0

abbrev pub read_count : DynamicBuffer → ℕ
read_count b = b.offset

abbrev pub clear : DynamicBuffer → DynamicBuffer
clear b = record b { offset = 0 }

abbrev pub advance : ℕ → DynamicBuffer → DynamicBuffer
advance n b = record b { offset = add64 b.offset n }
