-- ===== src/Buffer/Cursor.antt =====
-- include/async_frame/buffer.h: what the asynchronous operations use of a buffer (the concept
-- `is_buffer_v` and the calls of include/async_frame/do_read.h and include/async_frame/do_write.h),
-- as an interface of operations and laws, and the buffers that meet it.
use async_io_framework.Prelude.{
  ℕ, ◌+◌, ◌-◌, ◌≤◌, ◌<◌, ◌≡◌, refl, Bool, List, ◌++◌, length, take, drop, ◌==◌,
}
use async_io_framework.Prelude.Words.{add64, u64_mod, sub64_exact}
use async_io_framework.Buffer.DynamicBuffer
use async_io_framework.Buffer.DynamicBuffer.{DynamicBuffer}
use async_io_framework.Buffer.BufferView
use async_io_framework.Buffer.BufferView.{BufferView}

-- Memory after bytes were written at an index, as recv(2) writes them.
abbrev pub overwrite : ℕ → List ℕ → List ℕ → List ℕ
overwrite at bytes memory = take at memory ++ (bytes ++ drop (at + length bytes) memory)

pub record Cursor (B : Type 0) : Type 0 where
  pub storage : B → List ℕ
  pub offset : B → ℕ
  pub remain : B → ℕ
  pub done : B → Bool
  pub read_count : B → ℕ
  -- `operator+=`
  pub advance : ℕ → B → B
  -- The effect of recv(2) at `seek()` on the storage.
  pub fill : List ℕ → B → B
  pub read_count_lem : (b : B) → read_count b ≡ offset b
  pub done_lem : (b : B) → done b ≡ (remain b == 0)
  pub remain_lem :
      (b : B)
      → length (storage b) < u64_mod
      → offset b ≤ length (storage b)
      → remain b ≡ length (storage b) - offset b
  pub offset-advance : (n : ℕ) (b : B) → offset (advance n b) ≡ add64 (offset b) n
  pub storage-advance : (n : ℕ) (b : B) → storage (advance n b) ≡ storage b
  pub offset-fill : (bytes : List ℕ) (b : B) → offset (fill bytes b) ≡ offset b
  pub storage-fill :
      (bytes : List ℕ) (b : B) → storage (fill bytes b) ≡ overwrite (offset b) bytes (storage b)

abbrev pub dynamic_buffer : Cursor DynamicBuffer
dynamic_buffer = record {
  storage = λ b. b.buf;
  offset = λ b. b.offset;
  remain = DynamicBuffer.remain;
  done = DynamicBuffer.done;
  read_count = DynamicBuffer.read_count;
  advance = DynamicBuffer.advance;
  fill = λ bytes b. record b { buf = overwrite b.offset bytes b.buf };
  read_count_lem = λ b. refl;
  done_lem = λ b. refl;
  remain_lem = λ b p q. sub64_exact (length b.buf) b.offset q p;
  offset-advance = λ n b. refl;
  storage-advance = λ n b. refl;
  offset-fill = λ bytes b. refl;
  storage-fill = λ bytes b. refl;
}

abbrev pub buffer_view : Cursor BufferView
buffer_view = record {
  storage = λ b. b.data_;
  offset = λ b. b.offset;
  remain = BufferView.remain;
  done = BufferView.done;
  read_count = BufferView.read_count;
  advance = BufferView.advance;
  fill = λ bytes b. record b { data_ = overwrite b.offset bytes b.data_ };
  read_count_lem = λ b. refl;
  done_lem = λ b. refl;
  remain_lem = λ b p q. sub64_exact (length b.data_) b.offset q p;
  offset-advance = λ n b. refl;
  storage-advance = λ n b. refl;
  offset-fill = λ bytes b. refl;
  storage-fill = λ bytes b. refl;
}
