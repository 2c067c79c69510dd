-- ===== src/Buffer/BufferView.antt =====
-- include/async_frame/buffer.h: `Buffer_View`. Storage is a list of bytes, a pointer into it an index, and
-- `size_t` arithmetic wraps.
use async_io_framework.Prelude.{ℕ, Bool, List, length, ◌==◌}
use async_io_framework.Prelude.Words.{add64, sub64}

-- `Buffer_View`: `data_` is the storage that it points to, of `size_` bytes.
pub record BufferView : Type 0 where
  pub data_ : List ℕ
  pub offset : ℕ

abbrev pub make : List ℕ → BufferView
make ptr = record { data_ = ptr; offset = 0 }

abbrev pub size : BufferView → ℕ
size b = length b.data_

abbrev pub seek : BufferView → ℕ
seek b = b.offset

abbrev pub remain : BufferView → ℕ
remain b = sub64 (size b) b.offset

abbrev pub done : BufferView → Bool
done b = remain b == 0

abbrev pub read_count : BufferView → ℕ
read_count b = b.offset

abbrev pub clear : BufferView → BufferView
clear b = record b { offset = 0 }

abbrev pub advance : ℕ → BufferView → BufferView
advance n b = record b { offset = add64 b.offset n }
