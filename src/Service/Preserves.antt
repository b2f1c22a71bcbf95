-- ===== src/Service/Preserves.antt =====
-- What an action keeps, however its calls answer, with a rule for each way to write an action.
use video_captioner_z.Base.{
  ◌≡◌, refl, Bool, true, false, List, [], ◌∷◌, Result, ok, err, AppError, if◌then◌else◌,
}
use video_captioner_z.Service.{
  Answer, done, fails, fails_late, tears, says, gives, named, World, Act, returns, raises, pure,
  reads, resume_with, ◌>>=◌, recover_with, catches, pop, next_answer, obey, believe, accept,
  word_of, call, ask, produce, ask_word, then_result, ended, always_after,
}

-- After the action `P` still holds, whether the action returned or raised.
pub record Preserves {C A : Type 0} (P : World C → Type 0) (m : Act C A) : Type 0 where
  pub from : (w : World C) → P w → P (m w).1

module _ {C A : Type 0} {P : World C → Type 0} where
  pub Preserves-returns : (a : A) → Preserves P (returns a)
  unfolding returns
  Preserves-returns a = record { from = λ w h. h }

  pub Preserves-raises : (e : AppError) → Preserves P (raises {A = A} e)
  unfolding raises
  Preserves-raises e = record { from = λ w h. h }

  pub Preserves-pure : (r : Result A) → Preserves P (pure r)
  unfolding pure
  Preserves-pure r = record { from = λ w h. h }

  pub Preserves-reads : (f : World C → A) → Preserves P (reads f)
  unfolding reads
  Preserves-reads f = record { from = λ w h. h }

  pub Preserves-if :
      (b : Bool) (m n : Act C A) → Preserves P m → Preserves P n → Preserves P (if b then m else n)
  Preserves-if true m n h k = h
  Preserves-if false m n h k = k

  caught :
      (handler : AppError → Act C A) (r : Result A × World C)
      → ((e : AppError) → Preserves P (handler e))
      → P r.1
      → P (recover_with handler r).1
  caught handler (ok a, w) k h = h
  caught handler (err e, w) k h = (k e).from w h

  pub Preserves-catches :
      (m : Act C A) (handler : AppError → Act C A)
      → Preserves P m
      → ((e : AppError) → Preserves P (handler e))
      → Preserves P (catches m handler)
  unfolding catches
  Preserves-catches m handler h k = record { from = λ w p. caught handler (m w) k (h.from w p) }

  ended_by :
      (cleanup : Act C (Unit {0})) (r : Result A × World C)
      → Preserves P cleanup
      → P r.1
      → P (ended cleanup r).1
  ended_by cleanup (r, w) k h = last (cleanup w) (k.from w h)
    where
      last : (s : Result (Unit {0}) × World C) → P s.1 → P (then_result r s).1
      last (ok _, v) p = p
      last (err e, v) p = p

  pub Preserves-always_after :
      (m : Act C A) (cleanup : Act C (Unit {0}))
      → Preserves P m
      → Preserves P cleanup
      → Preserves P (always_after m cleanup)
  unfolding always_after
  Preserves-always_after m cleanup h k = record {
    from = λ w p. ended_by cleanup (m w) k (h.from w p);
  }

module _ {C A B : Type 0} {P : World C → Type 0} where
  resumed :
      (k : A → Act C B) (r : Result A × World C)
      → ((a : A) → Preserves P (k a))
      → P r.1
      → P (resume_with k r).1
  resumed k (ok a, w) f h = (f a).from w h
  resumed k (err e, w) f h = h

  pub Preserves-bind :
      (m : Act C A) (k : A → Act C B)
      → Preserves P m
      → ((a : A) → Preserves P (k a))
      → Preserves P (m >>= k)
  unfolding ◌>>=◌
  Preserves-bind m k h f = record { from = λ w p. resumed k (m w) f (h.from w p) }

pub ruleset preserves_rules = (
  Preserves-returns, Preserves-raises, Preserves-pure, Preserves-reads, Preserves-if,
  Preserves-bind, Preserves-catches,
)

-- What does not read the answers to come is kept by the calls themselves.
module _ {C : Type 0} (P : World C → Type 0)
    (free : (w : World C) (a : Answer) (answers : List Answer)
      → w.answers ≡ a ∷ answers
      → P w
      → P (record w { answers = answers })) where
  popped : (answers : List Answer) (w : World C) → w.answers ≡ answers → P w → P (pop answers w).1
  popped [] w e h = h
  popped (a ∷ answers) w e h = free w a answers e h

  pub next_answer_free : Preserves P next_answer
  unfolding next_answer
  next_answer_free = record { from = λ w h. popped w.answers w refl h }

  obey_free : (a : Answer) → Preserves P (obey a)
  unfolding obey
  obey_free (fails e) = Preserves-raises e
  obey_free (fails_late e) = Preserves-raises e
  obey_free (tears e) = Preserves-raises e
  obey_free done = Preserves-returns tt
  obey_free (says b) = Preserves-returns tt
  obey_free (gives refs) = Preserves-returns tt
  obey_free (named s) = Preserves-returns tt

  believe_free : (a : Answer) → Preserves P (believe a)
  unfolding believe
  believe_free (fails e) = Preserves-raises e
  believe_free (fails_late e) = Preserves-raises e
  believe_free (tears e) = Preserves-raises e
  believe_free (says b) = Preserves-returns b
  believe_free done = Preserves-returns false
  believe_free (gives refs) = Preserves-returns false
  believe_free (named s) = Preserves-returns false

  accept_free : (a : Answer) → Preserves P (accept a)
  unfolding accept
  accept_free (fails e) = Preserves-raises e
  accept_free (fails_late e) = Preserves-raises e
  accept_free (tears e) = Preserves-raises e
  accept_free (gives refs) = Preserves-returns refs
  accept_free done = Preserves-returns []
  accept_free (says b) = Preserves-returns []
  accept_free (named s) = Preserves-returns []

  word_free : (a : Answer) → Preserves P (word_of a)
  unfolding word_of
  word_free (fails e) = Preserves-raises e
  word_free (fails_late e) = Preserves-raises e
  word_free (tears e) = Preserves-raises e
  word_free (named s) = Preserves-returns s
  word_free done = Preserves-returns ""
  word_free (says b) = Preserves-returns ""
  word_free (gives refs) = Preserves-returns ""

  pub call_free : Preserves P call
  unfolding call
  call_free = Preserves-bind _ _ next_answer_free obey_free

  pub ask_free : Preserves P ask
  unfolding ask
  ask_free = Preserves-bind _ _ next_answer_free believe_free

  pub produce_free : Preserves P produce
  unfolding produce
  produce_free = Preserves-bind _ _ next_answer_free accept_free

  pub word_call_free : Preserves P ask_word
  unfolding ask_word
  word_call_free = Preserves-bind _ _ next_answer_free word_free
