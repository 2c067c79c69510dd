-- ===== src/Awaiters/Send/Progress/Step.antt =====
-- include/async_frame/async_write.h: one round of the loops, for any awaiter.
use async_io_framework.Prelude.{
  ℕ, ◌+◌, ◌≤◌, ◌<◌, ◌≡◌, ◌≢◌, ◌∙◌, refl, ap, sym, Bool, true, false, Option, none, some, List, [],
  ◌∷◌, Action, Result, ok, ⊤, ◌⊎◌, inl, inr, branch, pure, arith, if◌then◌else◌,
}
use async_io_framework.Prelude.Words.{u64_mod, add64, add64_exact}
use async_io_framework.Buffer.Filled.{IsWithin}
use async_io_framework.Transfer.{eagain, is_error, ReadRet, WriteRet, SendOutcome, try_write}
use async_io_framework.Transfer.Laws.{taken_by, send_error_of, status_of, try_write-Sent}
use async_io_framework.Awaiters.{System, World}
use async_io_framework.Awaiters.Send.Loop.{
  SendRound, is_in_progress, write_loop, Blocked, Shut, Sending, SendVerdict,
}
use async_io_framework.Awaiters.Steps.{bind-ok}

why_again :
    (o : SendOutcome) (left : ℕ)
    → is_in_progress (status_of o left) ≡ true
    → (o ≡ SendOutcome.send_failed eagain) ⊎ (0 < taken_by o)
why_again (SendOutcome.sent n) left h = grind arith
why_again (SendOutcome.send_failed errno) left h = grind arith

why_over :
    (o : SendOutcome) (left : ℕ)
    → is_in_progress (status_of o left) ≡ false
    → is_error (send_error_of o) ≡ false
    → o ≢ SendOutcome.send_failed 0
    → (left ≡ 0) ⊎ (o ≡ SendOutcome.sent 0)
why_over (SendOutcome.sent n) left h e z = grind arith
why_over (SendOutcome.send_failed errno) left h e z = grind arith

module _ {K T E B : Type 0} (sys : System K T E B) where
  -- send(2) keeps to the size that it is given, and fails with an errno.
  pub record Answers (round : SendRound (World K T E B)) : Type 0 where
    pub bounded : (n : ℕ) → taken_by (round.send n) ≤ n
    pub errno : (n : ℕ) → round.send n ≢ SendOutcome.send_failed 0

  -- A round with such answers, in which the rest of the program keeps an invariant and does not
  -- touch the buffer.
  pub record IsSendRound (Inv : World K T E B → Type 0) (round : SendRound (World K T E B))
      : Type 0 where
    pub answers : Answers round
    pub keeps : (w : World K T E B) → Inv w → Inv (round.meanwhile w)
    pub keeps_buf : (w : World K T E B) → (round.meanwhile w).buf ≡ w.buf

  abbrev pub AllSendRounds : (World K T E B → Type 0) → List (SendRound (World K T E B)) → Type 0
  AllSendRounds Inv [] = ⊤
  AllSendRounds Inv (round ∷ rounds) = IsSendRound Inv round × AllSendRounds Inv rounds

  -- What one `co_await` does: it returns an error and leaves the buffer, or it is `try_write`.
  pub record SendAwaited (Inv : World K T E B → Type 0) (m : Action (World K T E B) WriteRet)
      (round : SendRound (World K T E B)) (w : World K T E B) : Type 0 where
    pub value : WriteRet
    pub after : World K T E B
    pub returns : m w ≡ (ok value, after)
    pub inv : Inv after
    pub effect :
        ((is_error value.ec ≡ true)
          × (is_in_progress value.status ≡ false)
          × (value.len ≡ 0)
          × (after.buf ≡ w.buf))
        ⊎ ((value, after.buf) ≡ try_write sys.cursor (round.send (sys.cursor.remain w.buf)) w.buf)

  pub record SendLooped (Inv : World K T E B → Type 0) (total : ℕ)
      (rounds : List (SendRound (World K T E B))) (w : World K T E B) (r : Result (Option ReadRet))
      (w' : World K T E B) : Type 0 where
    pub value : Option ReadRet
    pub returns : r ≡ ok value
    pub inv : Inv w'
    pub sending : Sending sys.cursor total rounds w.buf w'.buf value

  module _ (await : SendRound (World K T E B) → Action (World K T E B) WriteRet) where
    pub write_loop-first :
        (total : ℕ) (round : SendRound (World K T E B)) (rounds : List (SendRound (World K T E B)))
        (w : World K T E B) (r : WriteRet) (w1 : World K T E B) (b : Bool)
        → await round w ≡ (ok r, w1)
        → is_in_progress r.status ≡ b
        → write_loop sys await total (round ∷ rounds) w ≡ (
            if b
            then write_loop sys await (add64 total r.len) rounds w1
            else (ok (some (record { ec = r.ec; len = add64 total r.len })), w1))
    unfolding write_loop
    write_loop-first total round rounds w r w1 b e h =
        bind-ok (await round)
          (λ r.
            branch (λ w. is_in_progress r.status) (write_loop sys await (add64 total r.len) rounds)
              (pure (some (record { ec = r.ec; len = add64 total r.len }))))
          w r w1 e
        ∙ step (is_in_progress r.status) b h
      where
        step :
            (a b : Bool)
            → a ≡ b
            → (elim a [
              | true ↦ write_loop sys await (add64 total r.len) rounds w1
              | false ↦ (ok (some (record { ec = r.ec; len = add64 total r.len })), w1)
            ])
              ≡ (if b
                  then write_loop sys await (add64 total r.len) rounds w1
                  else (ok (some (record { ec = r.ec; len = add64 total r.len })), w1))
        step true true h = refl
        step true false h = absurd (ground arith)
        step false true h = absurd (ground arith)
        step false false h = refl

    -- What a round leaves, whether it sent or gave up.
    pub round-Sent :
        (round : SendRound (World K T E B)) (w : World K T E B)
        → IsWithin sys.cursor w.buf
        → Answers round
        → {Inv : World K T E B → Type 0} (a : SendAwaited Inv (await round) round w)
        → IsWithin sys.cursor a.after.buf
          × (sys.cursor.storage a.after.buf ≡ sys.cursor.storage w.buf)
          × (sys.cursor.offset a.after.buf ≡ sys.cursor.offset w.buf + a.value.len)
          × (sys.cursor.remain a.after.buf + a.value.len ≡ sys.cursor.remain w.buf)
          × (is_in_progress a.value.status ≡ false
              → is_error a.value.ec ≡ false
              → (sys.cursor.remain a.after.buf ≡ 0)
                ⊎ (round.send (sys.cursor.remain w.buf) ≡ SendOutcome.sent 0))
          × (is_in_progress a.value.status ≡ true
              → (round.send (sys.cursor.remain w.buf) ≡ SendOutcome.send_failed eagain)
                ⊎ (0 < a.value.len))
    round-Sent round w within v a = elim a.effect [
      | inl (err, over, len, same) ↦ (
        rw same within,
        ap sys.cursor.storage same,
        ap sys.cursor.offset same ∙ omega arith,
        ap (λ b. sys.cursor.remain b + a.value.len) same ∙ omega arith,
        λ p q. absurd (ground arith),
        λ p. absurd (ground arith),
      )
      | inr e ↦
          let n = sys.cursor.remain w.buf in
          let o = round.send n in
          let s = try_write-Sent sys.cursor o w.buf within (v.bounded n) in
          let value : a.value ≡ (try_write sys.cursor o w.buf).0 = ap (λ p. p.0) e in
          let same : a.after.buf ≡ (try_write sys.cursor o w.buf).1 = ap (λ p. p.1) e in
          (
            rw same s.within,
            rw same s.kept,
            rw (same, value) s.moved,
            rw (same, value) s.less,
            λ p q. rw same (
                why_over o (sys.cursor.remain (try_write sys.cursor o w.buf).1)
                  (ap is_in_progress (sym s.classified)
                    ∙ ap (λ r. is_in_progress r.status) (sym value)
                    ∙ p)
                  (ap is_error (sym s.reported) ∙ ap (λ r. is_error r.ec) (sym value) ∙ q)
                  (v.errno n)),
            λ p.
                elim (why_again o (sys.cursor.remain (try_write sys.cursor o w.buf).1) (
                  ap is_in_progress (sym s.classified)
                  ∙ ap (λ r. is_in_progress r.status) (sym value)
                  ∙ p)) [
                    | inl x ↦ inl x
                    | inr x ↦ inr (omega (arith, ap (λ r. r.len) value, s.counted))
                  ],
          )
    ]

    pub last_round :
        (total : ℕ) (round : SendRound (World K T E B)) (rounds : List (SendRound (World K T E B)))
        (w : World K T E B)
        → IsWithin sys.cursor w.buf
        → total + sys.cursor.remain w.buf < u64_mod
        → Answers round
        → {Inv : World K T E B → Type 0} (a : SendAwaited Inv (await round) round w)
        → is_in_progress a.value.status ≡ false
        → Sending sys.cursor total
            (round ∷ rounds)
            w.buf
            a.after.buf
            (some (record { ec = a.value.ec; len = add64 total a.value.len }))
    last_round total round rounds w within room v a over =
        let (within', kept, moved, less, ended, _) = round-Sent round w within v a in
        let sum = add64_exact total a.value.len (omega (arith, less)) in
        record {
          within = within';
          kept = kept;
          moved = omega (arith, moved);
          verdict = (
            omega (arith, moved, sum),
            λ h. elim (ended over h) [
              | inl z ↦ inl z
              | inr s ↦ inr (Shut.here round (sys.cursor.remain w.buf) s)
            ],
          );
        }

    later-SendVerdict :
        (total len : ℕ) (round : SendRound (World K T E B))
        (rounds : List (SendRound (World K T E B))) (b b1 b' : B) (n : ℕ) (x : Option ReadRet)
        → sys.cursor.offset b1 ≡ sys.cursor.offset b + len
        → sys.cursor.remain b1 + len ≡ sys.cursor.remain b
        → ((round.send n ≡ SendOutcome.send_failed eagain) ⊎ (0 < len))
        → SendVerdict sys.cursor (total + len) rounds b1 b' x
        → SendVerdict sys.cursor total (round ∷ rounds) b b' x
    later-SendVerdict total len round rounds b b1 b' n none moved less (inl full)
          (k, blocked, bound) =
        (k + 1, Blocked.again round n full blocked, omega arith)
    later-SendVerdict total len round rounds b b1 b' n none moved less (inr some_sent)
          (k, blocked, bound) =
        (k, Blocked.goes round blocked, omega arith)
    later-SendVerdict total len round rounds b b1 b' n (some r) moved less why (sum, ended) =
        (omega arith, λ h. elim (ended h) [ inl z ↦ inl z | inr s ↦ inr (Shut.there round s) ])

    pub next_round :
        (total : ℕ) (round : SendRound (World K T E B)) (rounds : List (SendRound (World K T E B)))
        (w : World K T E B) (b' : B) (x : Option ReadRet)
        → IsWithin sys.cursor w.buf
        → Answers round
        → {Inv : World K T E B → Type 0} (a : SendAwaited Inv (await round) round w)
        → is_in_progress a.value.status ≡ true
        → Sending sys.cursor (total + a.value.len) rounds a.after.buf b' x
        → Sending sys.cursor total (round ∷ rounds) w.buf b' x
    next_round total round rounds w b' x within v a going s =
        let (within', kept, moved, less, _, why) = round-Sent round w within v a in
        record {
          within = s.within;
          kept = s.kept ∙ kept;
          moved = omega (arith, moved, s.moved);
          verdict =
              later-SendVerdict total a.value.len round rounds w.buf a.after.buf b'
                (sys.cursor.remain w.buf) x moved less (why going) s.verdict;
        }
