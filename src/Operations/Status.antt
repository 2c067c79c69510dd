-- ===== src/Operations/Status.antt =====
-- include/async_frame/base.h: `operation_state`, which several threads may try to finish. Each
-- `compare_exchange_strong` is one step.
use async_io_framework.Prelude.{◌≡◌, refl, Bool, true, false, not, List, [], ◌∷◌, if◌then◌else◌}
use async_io_framework.Transfer.{OpStatus}

abbrev pub is_pending : OpStatus → Bool
is_pending OpStatus.in_progress = true
is_pending OpStatus.erroneous = false
is_pending OpStatus.cancelled = false
is_pending OpStatus.shutdown = false
is_pending OpStatus.completed = false
is_pending OpStatus.timeout = false

-- `operation_state`
pub record OperationState : Type 0 where
  pub result : OpStatus

abbrev pub initial : OperationState
initial = record { result = OpStatus.in_progress }

-- `operation_state::try_finish`
unfoldable pub try_finish : OpStatus → OperationState → Bool × OperationState
try_finish next s = if is_pending s.result then (true, record { result = next }) else (false, s)

-- `operation_state::finished`
abbrev pub finished : OperationState → Bool
finished s = not (is_pending s.result)

-- The calls of all threads, in the order in which they take effect: what each returned, and the
-- state after them.
unfoldable pub attempts : List OpStatus → OperationState → List Bool × OperationState
attempts [] s = ([], s)
attempts (next ∷ rest) s =
    let (won, s') = try_finish next s in let (wins, s2) = attempts rest s' in (won ∷ wins, s2)

abbrev pub AllFinal : List OpStatus → Type 0
AllFinal [] = Unit
AllFinal (next ∷ rest) = (is_pending next ≡ false) × AllFinal rest

-- One `false` for each.
abbrev pub losses : List OpStatus → List Bool
losses [] = []
losses (next ∷ rest) = false ∷ losses rest

attempts_late :
    (nexts : List OpStatus) (s : OperationState)
    → is_pending s.result ≡ false
    → attempts nexts s ≡ (losses nexts, s)
unfolding attempts try_finish
attempts_late [] s h = refl
attempts_late (next ∷ rest) s h = rw (h, attempts_late rest s h) refl

-- When threads race to finish an operation, with results other than INPROGRESS, exactly the first
-- call wins: the state keeps its result, the operation is finished, and all later calls return false.
pub attempts_first :
    (next : OpStatus) (rest : List OpStatus)
    → AllFinal (next ∷ rest)
    → (attempts (next ∷ rest) initial ≡ (true ∷ losses rest, record { result = next }))
      × (finished (attempts (next ∷ rest) initial).1 ≡ true)
unfolding attempts try_finish
attempts_first next rest (h, hs) =
    let late = attempts_late rest (record { result = next }) h in
    (rw late refl, rw late (rw h refl))
