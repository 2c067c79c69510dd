-- ===== src/Prelude/Effects.antt =====
-- A call that may change a state and may throw. What was written before a throw stays written.
use mathlib.Core.Bool.{Bool, true, false}
use mathlib.Core.Path.{◌≡◌}

-- How a call ends: it returns a value, or a `std::runtime_error` leaves it.
pub data Result (A : Type 0) : Type 0 where
  ok : A → Result A
  thrown : Result A

abbrev pub Action : Type 0 → Type 0 → Type 0
Action S A = S → Result A × S

abbrev pub ⊤ : Type 0
⊤ = Unit

module _ {S : Type 0} where
  abbrev pub pure : {A : Type 0} → A → Action S A
  pure a s = (ok a, s)

  abbrev pub throw : {A : Type 0} → Action S A
  throw s = (thrown, s)

  abbrev pub get : Action S S
  get s = (ok s, s)

  abbrev pub modify : (S → S) → Action S ⊤
  modify f s = (ok tt, f s)

infixl 5 ◌>>=◌ ◌>>◌
abbrev pub ◌>>=◌ : {S A B : Type 0} → Action S A → (A → Action S B) → Action S B
◌>>=◌ m f s = let (r, s') = m s in elim r [ ok a ↦ f a s' | thrown ↦ (thrown, s') ]

abbrev pub ◌>>◌ : {S A B : Type 0} → Action S A → Action S B → Action S B
m >> k = m >>= λ _. k

-- A statement under an `if` with no `else`.
abbrev pub when : {S : Type 0} → Bool → Action S ⊤ → Action S ⊤
when true m s = m s
when false m s = (ok tt, s)

-- A call of a method of a member: `read` and `write` are the member's place in the state.
abbrev pub on_member : {S T A : Type 0} → (S → T) → (T → S → S) → Action T A → Action S A
on_member read write m s = let (r, t) = m (read s) in (r, write t s)

-- A call whose result is dropped.
abbrev pub discard : {S A : Type 0} → Action S A → Action S ⊤
discard m s = let (r, s') = m s in elim r [ ok _ ↦ (ok tt, s') | thrown ↦ (thrown, s') ]

-- A sequence goes on from where its first call returned.
pub >>-eq-ok :
    {S A B : Type 0} (m : Action S A) (k : Action S B) (s : S) (a : A)
    → (m s).0 ≡ ok a
    → (m >> k) s ≡ k (m s).1
>>-eq-ok m k s a h = rw (h, ◌>>=◌)

-- `if (test) { m } else { k }`, where the test reads the state.
abbrev pub branch : {S A : Type 0} → (S → Bool) → Action S A → Action S A → Action S A
branch test m k s = elim (test s) [ true ↦ m s | false ↦ k s ]
