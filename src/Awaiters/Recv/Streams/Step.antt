-- ===== src/Awaiters/Recv/Streams/Step.antt =====
-- include/async_frame/async_read.h: one round of the loops, for any awaiter.
use async_io_framework.Prelude.{
  ℕ, ◌+◌, ◌≤◌, ◌<◌, ◌≡◌, ◌∙◌, refl, ap, sym, Bool, true, false, Option, none, some, List, [], ◌∷◌,
  ◌++◌, length, Action, Result, ok, ⊤, ◌⊎◌, inl, inr, branch, arith, if◌then◌else◌,
}
use mathlib.Core.List.{append_assoc, append-nil}
use async_io_framework.Buffer.Filled.{filled, IsWithin}
use async_io_framework.Transfer.{is_error, ReadRet, try_read}
use async_io_framework.Transfer.Laws.{bytes_of, try_read-Received}
use async_io_framework.Awaiters.{System, World}
use async_io_framework.Awaiters.Recv.Loop.{
  Round, reading_ends, read_loop, Arrives, Silent, Streamed, Verdict,
}
use async_io_framework.Awaiters.Steps.{bind-ok}

module _ {K T E B : Type 0} (sys : System K T E B) where
  -- A round in which recv(2) keeps to the size that it is given, and the rest of the program keeps
  -- an invariant and does not touch the buffer.
  pub record IsRound (Inv : World K T E B → Type 0) (round : Round (World K T E B)) : Type 0 where
    pub bounded : (n : ℕ) → length (bytes_of (round.recv n)) ≤ n
    pub keeps : (w : World K T E B) → Inv w → Inv (round.meanwhile w)
    pub keeps_buf : (w : World K T E B) → (round.meanwhile w).buf ≡ w.buf

  abbrev pub AllRounds : (World K T E B → Type 0) → List (Round (World K T E B)) → Type 0
  AllRounds Inv [] = ⊤
  AllRounds Inv (round ∷ rounds) = IsRound Inv round × AllRounds Inv rounds

  -- What one `co_await` does: it returns an error and leaves the buffer, or it is `try_read`.
  pub record Awaited (Inv : World K T E B → Type 0) (m : Action (World K T E B) ReadRet)
      (round : Round (World K T E B)) (w : World K T E B) : Type 0 where
    pub value : ReadRet
    pub after : World K T E B
    pub returns : m w ≡ (ok value, after)
    pub inv : Inv after
    pub effect :
        ((is_error value.ec ≡ true) × (after.buf ≡ w.buf))
        ⊎ ((value, after.buf) ≡ try_read sys.cursor (round.recv (sys.cursor.remain w.buf)) w.buf)

  -- Where a loop over rounds stands.
  pub record Looped (Inv : World K T E B → Type 0) (rounds : List (Round (World K T E B)))
      (w : World K T E B) (r : Result (Option ReadRet)) (w' : World K T E B) : Type 0 where
    pub value : Option ReadRet
    pub returns : r ≡ ok value
    pub inv : Inv w'
    pub streamed : Streamed sys.cursor rounds w.buf w'.buf value

  -- recv(2) keeps to the size that it is given.
  abbrev pub Bounded : Round (World K T E B) → Type 0
  Bounded round = (n : ℕ) → length (bytes_of (round.recv n)) ≤ n

  why_ended :
      (r : ReadRet) (w : World K T E B)
      → reading_ends sys r w ≡ true
      → is_error r.ec ≡ false
      → (sys.cursor.done w.buf ≡ true) ⊎ (r.len ≡ 0)
  why_ended r w h e = ground arith

  went_on : (r : ReadRet) (w : World K T E B) → reading_ends sys r w ≡ false → 0 < r.len
  went_on r w h = ground arith

  module _ (await : Round (World K T E B) → Action (World K T E B) ReadRet) where
    abbrev give : ReadRet → Action (World K T E B) (Option ReadRet)
    give r w = (ok (some (record { ec = r.ec; len = sys.cursor.read_count w.buf })), w)

    pub read_loop-first :
        (round : Round (World K T E B)) (rounds : List (Round (World K T E B))) (w : World K T E B)
        (r : ReadRet) (w1 : World K T E B) (b : Bool)
        → await round w ≡ (ok r, w1)
        → reading_ends sys r w1 ≡ b
        → read_loop sys await (round ∷ rounds) w
          ≡ (if b then give r w1 else read_loop sys await rounds w1)
    unfolding read_loop
    read_loop-first round rounds w r w1 b e h =
        bind-ok (await round)
          (λ r. branch (reading_ends sys r) (give r) (read_loop sys await rounds)) w r w1 e
        ∙ step (reading_ends sys r w1) b h
      where
        step :
            (a b : Bool)
            → a ≡ b
            → (elim a [ true ↦ give r w1 | false ↦ read_loop sys await rounds w1 ])
              ≡ (if b then give r w1 else read_loop sys await rounds w1)
        step true true h = refl
        step true false h = absurd (ground arith)
        step false true h = absurd (ground arith)
        step false false h = refl

    pub round-IsWithin :
        (round : Round (World K T E B)) (w : World K T E B)
        → IsWithin sys.cursor w.buf
        → Bounded round
        → {Inv : World K T E B → Type 0} (a : Awaited Inv (await round) round w)
        → IsWithin sys.cursor a.after.buf
    round-IsWithin round w within ok_round a = elim a.effect [
      | inl (err, same) ↦ rw same within
      | inr e ↦
          let n = sys.cursor.remain w.buf in
          let same : a.after.buf ≡ (try_read sys.cursor (round.recv n) w.buf).1 = ap (λ p. p.1) e in
          rw same (try_read-Received sys.cursor (round.recv n) w.buf within (ok_round n)).within
    ]

    -- The round in which the loop ends.
    pub last_round :
        (round : Round (World K T E B)) (rounds : List (Round (World K T E B))) (w : World K T E B)
        → IsWithin sys.cursor w.buf
        → Bounded round
        → {Inv : World K T E B → Type 0} (a : Awaited Inv (await round) round w)
        → reading_ends sys a.value a.after ≡ true
        → Streamed sys.cursor
            (round ∷ rounds)
            w.buf
            a.after.buf
            (some (record { ec = a.value.ec; len = sys.cursor.read_count a.after.buf }))
    last_round round rounds w within ok_round a ends = elim a.effect [
      | inl (err, same) ↦ record {
        bytes = [];
        arrived = Arrives.stop;
        within = rw same within;
        appended = ap (filled sys.cursor) same ∙ sym (append-nil (filled sys.cursor w.buf));
        verdict = (sys.cursor.read_count_lem a.after.buf, λ h. absurd (ground arith));
      }
      | inr e ↦
          let n = sys.cursor.remain w.buf in
          let t = try_read-Received sys.cursor (round.recv n) w.buf within (ok_round n) in
          let value : a.value ≡ (try_read sys.cursor (round.recv n) w.buf).0 = ap (λ p. p.0) e in
          let same : a.after.buf ≡ (try_read sys.cursor (round.recv n) w.buf).1 = ap (λ p. p.1) e in
          record {
            bytes = bytes_of (round.recv n) ++ [];
            arrived = Arrives.more round n Arrives.stop;
            within = rw same t.within;
            appended =
                ap (filled sys.cursor) same
                ∙ t.appended
                ∙ ap (λ l. filled sys.cursor w.buf ++ l)
                    (sym (append-nil (bytes_of (round.recv n))));
            verdict = (
              sys.cursor.read_count_lem a.after.buf,
              λ h. elim (why_ended a.value a.after ends h) [
                | inl d ↦ inl d
                | inr z ↦
                    inr (Silent.here round n (omega (arith, z, t.counted, ap (λ r. r.len) value)))
              ],
            );
          }
    ]

    later-Verdict :
        (round : Round (World K T E B)) (rounds : List (Round (World K T E B))) (b b1 b' : B)
        (n : ℕ) (x : Option ReadRet)
        → 0 < n
        → sys.cursor.remain b1 + n ≡ sys.cursor.remain b
        → Verdict sys.cursor rounds b1 b' x
        → Verdict sys.cursor (round ∷ rounds) b b' x
    later-Verdict round rounds b b1 b' n none p e v = omega arith
    later-Verdict round rounds b b1 b' n (some r) p e (len, why) =
        (len, λ h. elim (why h) [ inl d ↦ inl d | inr s ↦ inr (Silent.there round s) ])

    -- A round after which the loop goes on, and the rest of the loop.
    pub next_round :
        (round : Round (World K T E B)) (rounds : List (Round (World K T E B))) (w : World K T E B)
        (b' : B) (x : Option ReadRet)
        → IsWithin sys.cursor w.buf
        → Bounded round
        → {Inv : World K T E B → Type 0} (a : Awaited Inv (await round) round w)
        → reading_ends sys a.value a.after ≡ false
        → Streamed sys.cursor rounds a.after.buf b' x
        → Streamed sys.cursor (round ∷ rounds) w.buf b' x
    next_round round rounds w b' x within ok_round a goes s = elim a.effect [
      | inl (err, same) ↦ absurd (ground arith)
      | inr e ↦
          let n = sys.cursor.remain w.buf in
          let t = try_read-Received sys.cursor (round.recv n) w.buf within (ok_round n) in
          let value : a.value ≡ (try_read sys.cursor (round.recv n) w.buf).0 = ap (λ p. p.0) e in
          let same : a.after.buf ≡ (try_read sys.cursor (round.recv n) w.buf).1 = ap (λ p. p.1) e in
          record {
            bytes = bytes_of (round.recv n) ++ s.bytes;
            arrived = Arrives.more round n s.arrived;
            within = s.within;
            appended =
                s.appended
                ∙ ap (λ l. l ++ s.bytes) (ap (filled sys.cursor) same ∙ t.appended)
                ∙ append_assoc (filled sys.cursor w.buf) (bytes_of (round.recv n)) s.bytes;
            verdict =
                later-Verdict round rounds w.buf a.after.buf b' a.value.len x
                  (went_on a.value a.after goes)
                  (ap (λ b. sys.cursor.remain b + a.value.len) same
                    ∙ ap
                        (λ r.
                          sys.cursor.remain (try_read sys.cursor (round.recv n) w.buf).1 + r.len)
                        value
                    ∙ t.less)
                  s.verdict;
          }
    ]
