-- ===== src/Service/Methods.antt =====
-- What a method leaves, whether it returns or raises: a method that raises leaves its caller with a
-- projection of before, which a reload makes the journal's again.
use video_captioner_z.Base.{
  inl, inr, refl, sym, ap, subst, Bool, true, false, Result, ok, err, AppError, if◌then◌else◌,
}
use video_captioner_z.Job.{ConfigCodec}
use video_captioner_z.Batch.{BatchProjection}
use video_captioner_z.Service.{
  World, method, returned_from, Written, unwritten, partly, wholly_then, wholly, repaired,
  repair_tail, mended, check_lines, read_snapshot, repair_and_read, Act, returns, raises, writes,
  resume_with, ◌>>=◌, recover_with, catches, raises_if, refreshed, refresh, reload,
}
use video_captioner_z.Service.Preserves.{
  Preserves, Preserves-returns, Preserves-raises, Preserves-pure, Preserves-reads, Preserves-if,
  Preserves-catches, Preserves-always_after, Preserves-bind, preserves_rules, next_answer_free,
  call_free, ask_free, produce_free, word_call_free,
}
use video_captioner_z.Service.Coherent.{
  Start, NeverTears, IsRecoverable, IsCoherent, replay-snoc, IsRecoverable-same, IsCoherent-same,
  IsRecoverable-free, IsCoherent-free, Preserves-call, Preserves-ask, Preserves-produce,
  Preserves-ask_word, Preserves-writes, Preserves-raises_if, Preserves-job_of,
  Preserves-write_manifest,
}
use video_captioner_z.Service.Append.{Preserves-append_event}

module _ {C : Type 0} {P : World C → Type 0} where
  Preserves-check_lines : Preserves P check_lines
  unfolding check_lines raises_if
  Preserves-check_lines = search preserves_rules

module _ {C : Type 0} {codec : ConfigCodec C} {base : Start} where
  -- a repair removes an incomplete tail, and leaves the lines
  mended-IsRecoverable :
      (w : World C)
      → IsRecoverable codec base w
      → IsRecoverable codec base (record w { tail = mended w.tail })
  mended-IsRecoverable w h = record {
    batch = h.batch;
    replays = h.replays;
    more = h.more;
    grown = h.grown;
    calm = λ q. (ap mended (h.calm q).0, (h.calm q).1);
  }

  mended-IsCoherent :
      (w : World C)
      → IsCoherent codec base w
      → IsCoherent codec base (record w { tail = mended w.tail })
  mended-IsCoherent w h = record {
    recoverable = mended-IsRecoverable w h.recoverable;
    at_hand = elim h.at_hand [ inl k ↦ inl (ap mended k) | inr k ↦ inr k ];
  }

  pub Preserves-read_snapshot : Preserves (IsCoherent codec base) read_snapshot
  unfolding read_snapshot
  Preserves-read_snapshot = Preserves-bind _ _ Preserves-call (λ _. Preserves-check_lines)

  repaired-IsRecoverable : (x : Written) → Preserves (IsRecoverable codec base) (repaired x)
  unfolding repaired writes raises ◌>>=◌
  repaired-IsRecoverable (unwritten e) = record { from = λ w h. h }
  repaired-IsRecoverable (partly e) = record { from = λ w h. h }
  repaired-IsRecoverable (wholly_then e) = record { from = mended-IsRecoverable }
  repaired-IsRecoverable wholly = record { from = mended-IsRecoverable }

  repaired-IsCoherent : (x : Written) → Preserves (IsCoherent codec base) (repaired x)
  unfolding repaired writes raises ◌>>=◌
  repaired-IsCoherent (unwritten e) = record { from = λ w h. h }
  repaired-IsCoherent (partly e) = record { from = λ w h. h }
  repaired-IsCoherent (wholly_then e) = record { from = mended-IsCoherent }
  repaired-IsCoherent wholly = record { from = mended-IsCoherent }

  pub repair_and_read-IsCoherent : Preserves (IsCoherent codec base) repair_and_read
  unfolding repair_and_read repair_tail
  repair_and_read-IsCoherent =
      Preserves-bind _ _
        (Preserves-bind _ _ (next_answer_free _ IsCoherent-free) (λ a. repaired-IsCoherent _))
        (λ _. Preserves-check_lines)

  repair_and_read-IsRecoverable : Preserves (IsRecoverable codec base) repair_and_read
  unfolding repair_and_read repair_tail
  repair_and_read-IsRecoverable =
      Preserves-bind _ _
        (Preserves-bind _ _ (next_answer_free _ IsRecoverable-free) (λ a. repaired-IsRecoverable _))
        (λ _. Preserves-check_lines)

-- From `P` the action returns with `Q`, or raises with `R`.
abbrev pub Ends : {C A : Type 0} (Q R : World C → Type 0) → Result A × World C → Type 0
Ends Q R (ok a, w) = Q w
Ends Q R (err e, w) = R w

pub record Leads {C A : Type 0} (P Q R : World C → Type 0) (m : Act C A) : Type 0 where
  pub from : (w : World C) → P w → Ends Q R (m w)

module _ {C A B : Type 0} {Q R S : World C → Type 0} where
  resumed_from :
      (k : A → Act C B) (r : Result A × World C)
      → ((a : A) → Leads Q S R (k a))
      → Ends Q R r
      → Ends S R (resume_with k r)
  resumed_from k (ok a, w) f h = (f a).from w h
  resumed_from k (err e, w) f h = h

  pub Leads-bind :
      {P : World C → Type 0} (m : Act C A) (k : A → Act C B)
      → Leads P Q R m
      → ((a : A) → Leads Q S R (k a))
      → Leads P S R (m >>= k)
  unfolding ◌>>=◌
  Leads-bind m k h f = record { from = λ w p. resumed_from k (m w) f (h.from w p) }

module _ {C A : Type 0} {Q R S : World C → Type 0} where
  handled_by :
      (handler : AppError → Act C A) (r : Result A × World C)
      → ((e : AppError) → Leads R Q S (handler e))
      → Ends Q R r
      → Ends Q S (recover_with handler r)
  handled_by handler (ok a, w) f h = h
  handled_by handler (err e, w) f h = (f e).from w h

  pub Leads-catches :
      {P : World C → Type 0} (m : Act C A) (handler : AppError → Act C A)
      → Leads P Q R m
      → ((e : AppError) → Leads R Q S (handler e))
      → Leads P Q S (catches m handler)
  unfolding catches
  Leads-catches m handler h f = record { from = λ w p. handled_by handler (m w) f (h.from w p) }

module _ {C A : Type 0} {P Q R : World C → Type 0} where
  pub Leads-if :
      (b : Bool) (m n : Act C A) → Leads P Q R m → Leads P Q R n → Leads P Q R (if b then m else n)
  Leads-if true m n h k = h
  Leads-if false m n h k = k

module _ {C A : Type 0} {P R : World C → Type 0} where
  kept_by : (r : Result A × World C) → ((w : World C) → P w → R w) → P r.1 → Ends P R r
  kept_by (ok a, w) f h = h
  kept_by (err e, w) f h = f w h

  pub Leads-Preserves : (m : Act C A) → ((w : World C) → P w → R w) → Preserves P m → Leads P P R m
  Leads-Preserves m f h = record { from = λ w p. kept_by (m w) f (h.from w p) }

module _ {C : Type 0} (codec : ConfigCodec C) (base : Start) where
  -- The action leaves the projection at hand the journal's where it returns, and the journal
  -- replayable where it raises.
  abbrev pub Keeps : {A : Type 0} → Act C A → Type 0
  Keeps m = Leads (IsCoherent codec base) (IsCoherent codec base) (IsRecoverable codec base) m

  -- the same, for a handler: the projection at hand is at first one of before the error
  abbrev pub Restores : {A : Type 0} → Act C A → Type 0
  Restores m = Leads (IsRecoverable codec base) (IsCoherent codec base) (IsRecoverable codec base) m

module _ {C A : Type 0} (codec : ConfigCodec C) (base : Start) where
  ended_method :
      (p : BatchProjection C) (r : Result A × World C)
      → Ends (IsCoherent codec base) (IsRecoverable codec base) r
      → Ends (IsCoherent codec base) (IsRecoverable codec base) (returned_from p r)
  ended_method p (ok a, w) h = h
  ended_method p (err e, w) h = IsRecoverable-same w _ refl refl refl h

module _ {C A : Type 0} {codec : ConfigCodec C} {base : Start} where
  pub Keeps-kept : (m : Act C A) → Preserves (IsCoherent codec base) m → Keeps codec base m
  Keeps-kept m h = Leads-Preserves m (λ w k. k.recoverable) h

  pub Keeps-raises : (e : AppError) → Keeps codec base (raises {A = A} e)
  Keeps-raises e = Keeps-kept _ (Preserves-raises e)

  pub Keeps-returns : (a : A) → Keeps codec base (returns a)
  Keeps-returns a = Keeps-kept _ (Preserves-returns a)

  pub Restores-raises : (e : AppError) → Restores codec base (raises {A = A} e)
  unfolding raises
  Restores-raises e = record { from = λ w h. h }

  pub Keeps-method : (m : Act C A) → Keeps codec base m → Keeps codec base (method m)
  unfolding method
  Keeps-method m h = record { from = λ w k. ended_method codec base w.held (m w) (h.from w k) }

  -- a method whose body raises with the projection still the journal's
  pub method-Keeps :
      (m : Act C A) → Preserves (IsCoherent codec base) m → Keeps codec base (method m)
  method-Keeps m h = Keeps-method m (Keeps-kept m h)

module _ {C : Type 0} {codec : ConfigCodec C} {base : Start} where
  refresh-Restores : Restores codec base (refresh codec)
  unfolding refresh
  refresh-Restores = record {
    from = λ w h.
        subst (λ r. Ends (IsCoherent codec base) (IsRecoverable codec base) (refreshed codec r w))
          (sym h.replays)
          (record {
            recoverable = IsRecoverable-same w _ refl refl refl h;
            at_hand = inr h.replays;
          });
  }

  pub Keeps-refresh : Keeps codec base (refresh codec)
  Keeps-refresh = record { from = λ w h. refresh-Restores.from w h.recoverable }

  -- A reload makes the projection at hand the journal's again.
  pub reload-Restores : Restores codec base (reload codec)
  unfolding reload
  reload-Restores =
      Leads-bind _ _ (Leads-Preserves _ (λ w h. h) repair_and_read-IsRecoverable)
        (λ _. refresh-Restores)

  pub Keeps-reload : Keeps codec base (reload codec)
  Keeps-reload = record { from = λ w h. reload-Restores.from w h.recoverable }

pub ruleset service_rules = (
  Preserves-always_after, Preserves-returns, Preserves-raises, Preserves-pure, Preserves-reads,
  Preserves-if, Preserves-bind, Preserves-catches, Preserves-call, Preserves-ask, Preserves-produce,
  Preserves-ask_word, Preserves-raises_if, Preserves-job_of, Preserves-write_manifest,
  Preserves-append_event, Preserves-read_snapshot, repair_and_read-IsCoherent,
)

module _ {C A B : Type 0} {codec : ConfigCodec C} {base : Start} where
  pub Keeps-bind :
      (m : Act C A) (k : A → Act C B)
      → Keeps codec base m
      → ((a : A) → Keeps codec base (k a))
      → Keeps codec base (m >>= k)
  Keeps-bind m k h f = Leads-bind m k h f

module _ {C A : Type 0} {codec : ConfigCodec C} {base : Start} where
  pub Keeps-if :
      (b : Bool) (m n : Act C A)
      → Keeps codec base m
      → Keeps codec base n
      → Keeps codec base (if b then m else n)
  Keeps-if b m n h k = Leads-if b m n h k

  pub Keeps-catches :
      (m : Act C A) (handler : AppError → Act C A)
      → Keeps codec base m
      → ((e : AppError) → Restores codec base (handler e))
      → Keeps codec base (catches m handler)
  Keeps-catches m handler h f = Leads-catches m handler h f

pub ruleset keeps_rules =
    (service_rules, Keeps-reload, Keeps-refresh, Keeps-if, Keeps-bind, Keeps-kept)
