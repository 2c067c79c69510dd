-- ===== src/Buffer/Filled.antt =====
-- include/async_frame/buffer.h: the bytes below the offset of a buffer, and how an operation that
-- fills and advances it adds to them.
use async_io_framework.Prelude.{
  ℕ, ◌+◌, ◌≤◌, ◌<◌, ◌≡◌, refl, ◌∙◌, ap, List, [], ◌∷◌, ◌++◌, length, take, drop, length-append,
  length-take, length-drop, arith,
}
use mathlib.Core.List.{append_assoc}
use mathlib.Core.Path.{ap₂}
use async_io_framework.Prelude.Words.{u64_mod, add64, add64_exact}
use async_io_framework.Buffer.Cursor.{Cursor, overwrite}

length-overwrite :
    (at : ℕ) (bytes memory : List ℕ)
    → at + length bytes ≤ length memory
    → length (overwrite at bytes memory) ≡ length memory
length-overwrite at bytes memory h = omega (
  arith,
  length-append (take at memory) (bytes ++ drop (at + length bytes) memory),
  length-append bytes (drop (at + length bytes) memory),
  length-take at memory,
  length-drop (at + length bytes) memory,
)

take-append_left : (xs ys : List ℕ) → take (length xs) (xs ++ ys) ≡ xs
take-append_left [] ys = refl
take-append_left (x ∷ xs) ys = ap (◌∷◌ x) (take-append_left xs ys)

take_two :
    (n : ℕ) (xs ys rest : List ℕ) → n ≡ length (xs ++ ys) → take n (xs ++ (ys ++ rest)) ≡ xs ++ ys
take_two n xs ys rest e = rw (e, ← append_assoc xs ys rest) (take-append_left (xs ++ ys) rest)

take-overwrite :
    (at : ℕ) (bytes memory : List ℕ)
    → at ≤ length memory
    → take (at + length bytes) (overwrite at bytes memory) ≡ take at memory ++ bytes
take-overwrite at bytes memory h =
    take_two (at + length bytes) (take at memory) bytes (drop (at + length bytes) memory)
      (omega (arith, length-append (take at memory) bytes, length-take at memory))

-- The bytes below the offset.
abbrev pub filled : {B : Type 0} → Cursor B → B → List ℕ
filled c b = take (c.offset b) (c.storage b)

-- The offset lies within a storage that a `size_t` can measure.
pub record IsWithin {B : Type 0} (c : Cursor B) (b : B) : Type 0 where
  pub fits : c.offset b ≤ length (c.storage b)
  pub small : length (c.storage b) < u64_mod

module _ {B : Type 0} (c : Cursor B) where
  -- Bytes that fit are appended to the filled ones.
  pub fill-advance :
      (bytes : List ℕ) (b : B)
      → IsWithin c b
      → c.offset b + length bytes ≤ length (c.storage b)
      → let b' = c.advance (length bytes) (c.fill bytes b) in
        IsWithin c b'
        × (filled c b' ≡ filled c b ++ bytes)
        × (c.offset b' ≡ c.offset b + length bytes)
        × (length (c.storage b') ≡ length (c.storage b))
  fill-advance bytes b w room =
      let off =
        c.offset-advance (length bytes) (c.fill bytes b)
        ∙ ap (λ n. add64 n (length bytes)) (c.offset-fill bytes b)
        ∙ add64_exact (c.offset b) (length bytes) (omega arith) in
      let mem = c.storage-advance (length bytes) (c.fill bytes b) ∙ c.storage-fill bytes b in
      let len = ap length mem ∙ length-overwrite (c.offset b) bytes (c.storage b) room in
      (
        record { fits = omega (arith, off, len); small = omega (arith, len) },
        ap₂ take off mem ∙ take-overwrite (c.offset b) bytes (c.storage b) w.fits,
        off,
        len,
      )
