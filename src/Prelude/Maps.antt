-- ===== src/Prelude/Maps.antt =====
-- `std::unordered_map` with number keys, as an association list, and `std::unordered_set` of numbers.
use Prim.Native.Nat.{ℕ}
use mathlib.Core.Path.{◌≡◌, refl}
use mathlib.Core.Bool.{Bool, false, ◌||◌}
use mathlib.Core.Option.{Option, none, some}
use mathlib.Core.List.{List, [], ◌∷◌}
use native.Mathlib.Omega.{arith}
use async_io_framework.Prelude.Tests.{◌==◌, if◌then◌else◌}

abbrev pub Map {ℓ} : Type ℓ → Type ℓ
Map V = List (ℕ × V)

module _ {ℓ} {V : Type ℓ} where
  -- `m.find(k)`
  unfoldable pub lookup : ℕ → Map V → Option V
  lookup k [] = none
  lookup k ((j, v) ∷ m) = if j == k then some v else lookup k m

  -- `m[k] = v`
  unfoldable pub insert : ℕ → V → Map V → Map V
  insert k v [] = (k, v) ∷ []
  insert k v ((j, w) ∷ m) = if j == k then (k, v) ∷ m else (j, w) ∷ insert k v m

  -- `m.erase(k)`
  unfoldable pub erase : ℕ → Map V → Map V
  erase k [] = []
  erase k ((j, w) ∷ m) = let rest = erase k m in if j == k then rest else (j, w) ∷ rest

  pub lookup-insert :
      (j k : ℕ) (v : V) (m : Map V)
      → lookup j (insert k v m) ≡ (if k == j then some v else lookup j m)
  unfolding lookup insert
  lookup-insert j k v [] = refl
  lookup-insert j k v ((i, w) ∷ m) = ground (arith, lookup-insert j k v m)

  pub lookup-erase :
      (j k : ℕ) (m : Map V) → lookup j (erase k m) ≡ (if k == j then none else lookup j m)
  unfolding lookup erase
  lookup-erase j k [] = ground arith
  lookup-erase j k ((i, w) ∷ m) = ground (arith, lookup-erase j k m)

-- `s.count(a) != 0`
unfoldable pub has : ℕ → List ℕ → Bool
has a [] = false
has a (x ∷ xs) = x == a || has a xs

-- `s.insert(a)`
unfoldable pub put : ℕ → List ℕ → List ℕ
unfolding has
put a xs = if has a xs then xs else a ∷ xs

-- `s.erase(a)`
unfoldable pub drop_id : ℕ → List ℕ → List ℕ
drop_id a [] = []
drop_id a (x ∷ xs) = let rest = drop_id a xs in if x == a then rest else x ∷ rest

pub has-put : (b a : ℕ) (xs : List ℕ) → has b (put a xs) ≡ (a == b || has b xs)
unfolding put
has-put b a xs = ground (arith, has-same a b xs)
  where
    has-same : (a b : ℕ) (xs : List ℕ) → a ≡ b → has a xs ≡ has b xs
    has-same a b xs e = cc

pub has-drop_id :
    (b a : ℕ) (xs : List ℕ) → has b (drop_id a xs) ≡ (if a == b then false else has b xs)
unfolding has drop_id
has-drop_id b a [] = ground arith
has-drop_id b a (x ∷ xs) = ground (arith, has-drop_id b a xs)
