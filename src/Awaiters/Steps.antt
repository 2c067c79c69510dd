-- ===== src/Awaiters/Steps.antt =====
-- How an awaiter's calls are put together: what a call returns and leaves, and a sequence or a branch
-- of calls from its parts.
use async_io_framework.Prelude.{
  ℕ, ◌≡◌, ◌∙◌, refl, ap, Bool, true, false, Option, Action, ok, thrown, ◌>>=◌, ◌>>◌, branch, arith,
  ◌==◌, if◌then◌else◌,
}
use async_io_framework.Scheduler.{Scheduler}
use async_io_framework.Scheduler.Agreement.{Agrees}
use async_io_framework.Scheduler.Slots.{Waiters, waiters}
use async_io_framework.Timer.{TimerEvent}
use async_io_framework.CancelToken.{CancelToken, SharedState}
use async_io_framework.Awaiters.{System, World}

-- The slots of all descriptors.
abbrev pub Table : Type 0
Table = ℕ → Waiters

-- The reader, or the writer, of one descriptor replaced.
abbrev pub with_reader : ℕ → Option ℕ → Table → Table
with_reader fd op slots j = if fd == j then record (slots j) { reader = op } else slots j

abbrev pub with_writer : ℕ → Option ℕ → Table → Table
with_writer fd op slots j = if fd == j then record (slots j) { writer = op } else slots j

-- The reader of the token's descriptor; `noop_cancel_token` has none.
abbrev pub with_token : CancelToken → Option ℕ → Table → Table
with_token CancelToken.noop op slots = slots
with_token (CancelToken.event fd) op slots = with_reader fd op slots

pub with_token-ap :
    (token : CancelToken) (op : Option ℕ) (s t : Table) (j : ℕ)
    → s j ≡ t j
    → with_token token op s j ≡ with_token token op t j
with_token-ap CancelToken.noop op s t j h = h
with_token-ap (CancelToken.event fd) op s t j h =
    ap (λ w. if fd == j then record w { reader = op } else w) h

pub with_reader-with_token :
    (token : CancelToken) (fd : ℕ) (op : Option ℕ) (s : Table) (j : ℕ)
    → with_reader fd op (with_token token op s) j ≡ with_token token op (with_reader fd op s) j
with_reader-with_token CancelToken.noop fd op s j = refl
with_reader-with_token (CancelToken.event t) fd op s j = ground arith

pub with_reader-swap :
    (fd at : ℕ) (op op' : Option ℕ) (s : Table) (j : ℕ)
    → (fd == at) ≡ false
    → with_reader fd op (with_reader at op' s) j ≡ with_reader at op' (with_reader fd op s) j
with_reader-swap fd at op op' s j h = ground arith

pub with_reader-ap :
    (fd : ℕ) (op : Option ℕ) (s t : Table) (j : ℕ)
    → s j ≡ t j
    → with_reader fd op s j ≡ with_reader fd op t j
with_reader-ap fd op s t j h = ap (λ w. if fd == j then record w { reader = op } else w) h

pub with_writer-ap :
    (fd : ℕ) (op : Option ℕ) (s t : Table) (j : ℕ)
    → s j ≡ t j
    → with_writer fd op s j ≡ with_writer fd op t j
with_writer-ap fd op s t j h = ap (λ w. if fd == j then record w { writer = op } else w) h

pub with_writer-with_reader :
    (fd at : ℕ) (op op' : Option ℕ) (s : Table) (j : ℕ)
    → with_writer fd op (with_reader at op' s) j ≡ with_reader at op' (with_writer fd op s) j
with_writer-with_reader fd at op op' s j = ground arith

pub with_writer-with_token :
    (token : CancelToken) (fd : ℕ) (op op' : Option ℕ) (s : Table) (j : ℕ)
    → with_writer fd op (with_token token op' s) j ≡ with_token token op' (with_writer fd op s) j
with_writer-with_token CancelToken.noop fd op op' s j = refl
with_writer-with_token (CancelToken.event t) fd op op' s j = with_writer-with_reader fd t op op' s j

pub bind-ok :
    {S A C : Type 0} (m : Action S A) (f : A → Action S C) (s : S) (a : A) (s' : S)
    → m s ≡ (ok a, s')
    → (m >>= f) s ≡ f a s'
bind-ok m f s a s' e = ap (λ r. elim r.0 [ ok x ↦ f x r.1 | thrown ↦ (thrown, r.1) ]) e

module _ {K T E B : Type 0} (sys : System K T E B) where
  -- A call that returns `a` with the given timers, token and buffer, and with the scheduler in
  -- agreement with epoll and waited on as `slots` says.
  pub record Ends {A : Type 0} (m : Action (World K T E B) A) (w : World K T E B) (a : A)
      (timer : TimerEvent T) (token : SharedState E) (buf : B) (slots : Table) : Type 0 where
    pub after : Scheduler K
    pub returns :
        m w ≡ (ok a, record { scheduler = after; timer = timer; token = token; buf = buf })
    pub agrees : Agrees sys.epoll after
    pub waits : (j : ℕ) → waiters after j ≡ slots j

  -- A call that changes the scheduler alone.
  abbrev pub Moves : {A : Type 0} → Action (World K T E B) A → World K T E B → A → Table → Type 0
  Moves m w a slots = Ends m w a w.timer w.token w.buf slots

  pub Ends-then :
      {A C : Type 0} (m : Action (World K T E B) A) (f : A → Action (World K T E B) C)
      (w : World K T E B) (a : A) (c : C) {t t' : TimerEvent T} {k k' : SharedState E} {b b' : B}
      {slots slots' : Table}
      → Ends m w a t k b slots
      → ((s : Scheduler K)
          → Agrees sys.epoll s
          → ((j : ℕ) → waiters s j ≡ slots j)
          → Ends (f a) (record { scheduler = s; timer = t; token = k; buf = b }) c t' k' b' slots')
      → Ends (m >>= f) w c t' k' b' slots'
  Ends-then m f w a c first rest =
      let last = rest first.after first.agrees first.waits in
      record {
        after = last.after;
        returns = bind-ok m f w a _ first.returns ∙ last.returns;
        agrees = last.agrees;
        waits = last.waits;
      }

  pub Ends-next :
      {A C : Type 0} (m : Action (World K T E B) A) (n : Action (World K T E B) C)
      (w : World K T E B) (a : A) (c : C) {t t' : TimerEvent T} {k k' : SharedState E} {b b' : B}
      {slots slots' : Table}
      → Ends m w a t k b slots
      → ((s : Scheduler K)
          → Agrees sys.epoll s
          → ((j : ℕ) → waiters s j ≡ slots j)
          → Ends n (record { scheduler = s; timer = t; token = k; buf = b }) c t' k' b' slots')
      → Ends (m >> n) w c t' k' b' slots'
  Ends-next m n w a c first rest = Ends-then m (λ _. n) w a c first rest

  pub Ends-branch-true :
      {A : Type 0} (test : World K T E B → Bool) (m n : Action (World K T E B) A)
      (w : World K T E B) (a : A) {t : TimerEvent T} {k : SharedState E} {b : B} {slots : Table}
      → test w ≡ true
      → Ends m w a t k b slots
      → Ends (branch test m n) w a t k b slots
  Ends-branch-true test m n w a h e = record {
    after = e.after;
    returns = ap (λ x. elim x [ true ↦ m w | false ↦ n w ]) h ∙ e.returns;
    agrees = e.agrees;
    waits = e.waits;
  }

  pub Ends-branch-false :
      {A : Type 0} (test : World K T E B → Bool) (m n : Action (World K T E B) A)
      (w : World K T E B) (a : A) {t : TimerEvent T} {k : SharedState E} {b : B} {slots : Table}
      → test w ≡ false
      → Ends n w a t k b slots
      → Ends (branch test m n) w a t k b slots
  Ends-branch-false test m n w a h e = record {
    after = e.after;
    returns = ap (λ x. elim x [ true ↦ m w | false ↦ n w ]) h ∙ e.returns;
    agrees = e.agrees;
    waits = e.waits;
  }

  -- A call that begins with a step on another part of the state.
  pub Ends-from :
      {A : Type 0} (m : Action (World K T E B) A) (w : World K T E B) (n : Action (World K T E B) A)
      (w' : World K T E B) {a : A} {t : TimerEvent T} {k : SharedState E} {b : B} {slots : Table}
      → m w ≡ n w'
      → Ends n w' a t k b slots
      → Ends m w a t k b slots
  Ends-from m w n w' h e = record {
    after = e.after;
    returns = h ∙ e.returns;
    agrees = e.agrees;
    waits = e.waits;
  }

  -- The same table, described in another way.
  pub Ends-as :
      {A : Type 0} {m : Action (World K T E B) A} {w : World K T E B} {a : A} {t : TimerEvent T}
      {k : SharedState E} {b : B} {slots slots' : Table}
      → Ends m w a t k b slots
      → ((j : ℕ) → slots j ≡ slots' j)
      → Ends m w a t k b slots'
  Ends-as e h = record {
    after = e.after;
    returns = e.returns;
    agrees = e.agrees;
    waits = λ j. e.waits j ∙ h j;
  }
