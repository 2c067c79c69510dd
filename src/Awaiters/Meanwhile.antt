-- ===== src/Awaiters/Meanwhile.antt =====
-- `co_await` of an inner awaiter of include/async_frame/async_read.h or
-- include/async_frame/async_write.h: if it suspends, the rest of the program goes on, and then it
-- resumes.
use async_io_framework.Prelude.{
  ◌≡◌, ◌∙◌, Bool, true, false, Action, ok, ◌>>=◌, ◌>>◌, modify, if◌then◌else◌,
}
use async_io_framework.Awaiters.{World}
use async_io_framework.Awaiters.Steps.{bind-ok}

module _ {K T E B : Type 0} where
  -- The state in which the awaiter resumes.
  pub record Resumable (Q : World K T E B → Type 0) (suspend : Action (World K T E B) Bool)
      (meanwhile : World K T E B → World K T E B) (w : World K T E B) : Type 1 where
    pub found : World K T E B
    pub holds : Q found
    pub same_buf : found.buf ≡ w.buf
    pub resumes :
        {A : Type 0} (resume : Action (World K T E B) A)
        → (suspend >>= λ suspended. modify (λ w. if suspended then meanwhile w else w) >> resume) w
          ≡ resume found

  -- The rest of the program leads from what holds after `await_suspend` to what has to hold before
  -- `await_resume`, which also follows where it does nothing.
  pub suspended-Resumable :
      (P Q : World K T E B → Type 0) (suspend : Action (World K T E B) Bool)
      (meanwhile : World K T E B → World K T E B) (w : World K T E B) (value : Bool)
      (after : World K T E B)
      → suspend w ≡ (ok value, after)
      → P after
      → after.buf ≡ w.buf
      → (P after → Q after)
      → ((v : World K T E B) → P v → Q (meanwhile v))
      → ((v : World K T E B) → (meanwhile v).buf ≡ v.buf)
      → Resumable Q suspend meanwhile w
  suspended-Resumable P Q suspend meanwhile w true after e p same stays keeps keeps_buf = record {
    found = meanwhile after;
    holds = keeps after p;
    same_buf = keeps_buf after ∙ same;
    resumes = λ resume.
        bind-ok suspend (λ suspended. modify (λ w. if suspended then meanwhile w else w) >> resume)
          w true after e;
  }
  suspended-Resumable P Q suspend meanwhile w false after e p same stays keeps keeps_buf = record {
    found = after;
    holds = stays p;
    same_buf = same;
    resumes = λ resume.
        bind-ok suspend (λ suspended. modify (λ w. if suspended then meanwhile w else w) >> resume)
          w false after e;
  }
