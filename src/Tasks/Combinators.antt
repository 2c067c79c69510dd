-- ===== src/Tasks/Combinators.antt =====
-- include/async_frame/multiple_coro.hpp: `when_any` and `when_all`. A round is one pass of the loop:
-- the first when the coroutine is called, one more at each resumption; it is given which of the
-- tasks are done.
use async_io_framework.Prelude.{
  ℕ, suc, ◌≤◌, ◌≡◌, inl, inr, refl, Bool, true, false, ◌&&◌, ◌||◌, Option, none, some, List, [],
  ◌∷◌, if◌then◌else◌, arith, Bool-cases,
}

-- `(tasks.handle_.done() || ...)`, which is false with no tasks.
abbrev pub any_done : List Bool → Bool
any_done [] = false
any_done (d ∷ ds) = d || any_done ds

-- `(tasks.handle_.done() && ...)`, which is true with no tasks.
abbrev pub all_done : List Bool → Bool
all_done [] = true
all_done (d ∷ ds) = d && all_done ds

abbrev pub later : Option ℕ → Option ℕ
later none = none
later (some n) = some (suc n)

-- How often the coroutine suspends before it returns; `none` where it has not after all rounds.
unfoldable pub when_any : List (List Bool) → Option ℕ
when_any [] = none
when_any (dones ∷ rounds) =
    let rest = later (when_any rounds) in if any_done dones then some 0 else rest

unfoldable pub when_all : List (List Bool) → Option ℕ
when_all [] = none
when_all (dones ∷ rounds) =
    let rest = later (when_all rounds) in if all_done dones then some 0 else rest

-- Each round is about at least one task.
abbrev pub AllTasks : List (List Bool) → Type 0
AllTasks [] = Unit
AllTasks ([] ∷ rounds) = ⊥
AllTasks ((d ∷ ds) ∷ rounds) = AllTasks rounds

any_of_all : (d : Bool) (ds : List Bool) → all_done (d ∷ ds) ≡ true → any_done (d ∷ ds) ≡ true
any_of_all true ds h = refl
any_of_all false ds h = cc

later-eq-some : (o : Option ℕ) (k : ℕ) → later o ≡ some k → (n : ℕ) × (o ≡ some n) × (k ≡ suc n)
later-eq-some none k h = absurd (ground arith)
later-eq-some (some n) k h = (n, refl, ground arith)

-- Over the same rounds, with at least one task, `when_all` returns only where `when_any` has
-- returned, after no more suspensions.
pub when_any-le-when_all :
    (rounds : List (List Bool)) (k : ℕ)
    → AllTasks rounds
    → when_all rounds ≡ some k
    → (j : ℕ) × (when_any rounds ≡ some j) × (j ≤ k)
unfolding when_any when_all
when_any-le-when_all [] k t h = absurd (ground arith)
when_any-le-when_all ([] ∷ rounds) k t h = absurd t
when_any-le-when_all ((d ∷ ds) ∷ rounds) k t h = elim (Bool-cases (d || any_done ds)) [
  | inl some_done ↦ (0, rw some_done refl, omega arith)
  | inr none_done ↦
      let not_all : (d && all_done ds) ≡ false = elim (Bool-cases (d && all_done ds)) [
        | inl all ↦ absurd (ground (arith, any_of_all d ds all))
        | inr e ↦ e
      ] in
      let (n, e, k_eq) = later-eq-some (when_all rounds) k (rw not_all at h) in
      let (j, f, le) = when_any-le-when_all rounds n t e in
      (suc j, rw none_done (rw f refl), omega arith)
]
