-- ===== src/Service/Coherent.antt =====
-- The property that the bodies of the services' methods keep: the journal has only grown and
-- replays, and the projection at hand is its replay, unless the journal can no longer be read.
use video_captioner_z.Base.{
  suc, String, ◌≡◌, ◌≢◌, ◌⊎◌, inl, inr, All, raise_if, refl, sym, ap, ◌∙◌, subst, Bool, true, false,
  Option, none, some, List, [], ◌∷◌, ◌++◌, Result, ok, err, AppError, bind_returned, ok-injective,
  if◌then◌else◌,
}
use video_captioner_z.Base
use video_captioner_z.Job.{ConfigCodec}
use video_captioner_z.Batch.{BatchProjection}
use video_captioner_z.Event.{JournalEvent}
use video_captioner_z.Journal.{apply_event, apply_events, non_empty, replay}
use video_captioner_z.Journal.Chain.{non_empty-eq-ok}
use video_captioner_z.Service.{
  save_manifest, Written, written, unwritten, partly, wholly_then, wholly, Answer, tears, World,
  whole, corrupt, writes, call, ask, produce, ask_word, raises_if, job_of, write_manifest,
}
use video_captioner_z.Service.Preserves.{
  next_answer_free, Preserves-raises, Preserves, Preserves-pure, Preserves-bind, preserves_rules,
  call_free, ask_free, produce_free, word_call_free,
}

-- Where a request starts: the events of the journal, and a proposition that says that no line of it
-- is ever torn.
pub record Start : Type 1 where
  pub events : List JournalEvent
  pub is_quiet : Type 0

abbrev pub NeverTears : Answer → Type 0
NeverTears a = (e : AppError) → a ≢ tears e

module _ {C : Type 0} (codec : ConfigCodec C) where
  -- The journal replays and continues the events of the start; if no line is ever torn, then it is
  -- whole.
  pub record IsRecoverable (base : Start) (w : World C) : Type 0 where
    pub batch : BatchProjection C
    pub replays : replay codec w.log ≡ ok batch
    pub more : List JournalEvent
    pub grown : w.log ≡ base.events ++ more
    pub calm : base.is_quiet → (w.tail ≡ whole) × All NeverTears w.answers

  -- besides, the projection at hand is the journal's, if the journal can be read
  pub record IsCoherent (base : Start) (w : World C) : Type 0 where
    pub recoverable : IsRecoverable base w
    pub at_hand : (w.tail ≡ corrupt) ⊎ (replay codec w.log ≡ ok w.held)

  apply_events-snoc :
      (o : Option (BatchProjection C)) (log : List JournalEvent) (e : JournalEvent)
      (p q : BatchProjection C)
      → apply_events codec o log ≡ ok (some p)
      → apply_event codec (some p) e ≡ ok q
      → apply_events codec o (log ++ e ∷ []) ≡ ok (some q)
  unfolding apply_events Base.◌>>=◌
  apply_events-snoc o [] e p q h k =
      let same : o ≡ some p = ok-injective o o (some p) h in
      ap (λ r. Base.◌>>=◌ (apply_event codec r e) (λ x. ok (some x))) same
      ∙ ap (λ r. Base.◌>>=◌ r (λ x. ok (some x))) k
  apply_events-snoc o (f ∷ log) e p q h k =
      let (r, first, rest) = bind_returned (apply_event codec o f) _ h in
      ap (λ x. Base.◌>>=◌ x (λ y. apply_events codec (some y) (log ++ e ∷ []))) first
      ∙ apply_events-snoc (some r) log e p q rest k

  pub replay-snoc :
      (log : List JournalEvent) (e : JournalEvent) (p q : BatchProjection C)
      → replay codec log ≡ ok p
      → apply_event codec (some p) e ≡ ok q
      → replay codec (log ++ e ∷ []) ≡ ok q
  unfolding replay non_empty Base.◌>>=◌
  replay-snoc log e p q h k =
      let (o, all_events, some_p) = bind_returned (apply_events codec none log) _ h in
      let ends = all_events ∙ ap ok (non_empty-eq-ok codec o p some_p) in
      ap (λ r. Base.◌>>=◌ r non_empty) (apply_events-snoc none log e p q ends k)

module _ {C : Type 0} {codec : ConfigCodec C} {base : Start} where
  -- the parts of the world that the properties read are untouched
  pub IsRecoverable-same :
      (v w : World C)
      → v.log ≡ w.log
      → v.tail ≡ w.tail
      → v.answers ≡ w.answers
      → IsRecoverable codec base v
      → IsRecoverable codec base w
  IsRecoverable-same v w l t a h = record {
    batch = h.batch;
    replays = ap (replay codec) (sym l) ∙ h.replays;
    more = h.more;
    grown = sym l ∙ h.grown;
    calm = λ q. (sym t ∙ (h.calm q).0, subst (All NeverTears) a (h.calm q).1);
  }

  pub IsCoherent-same :
      (v w : World C)
      → v.log ≡ w.log
      → v.tail ≡ w.tail
      → v.answers ≡ w.answers
      → v.held ≡ w.held
      → IsCoherent codec base v
      → IsCoherent codec base w
  IsCoherent-same v w l t a p h = record {
    recoverable = IsRecoverable-same v w l t a h.recoverable;
    at_hand = elim h.at_hand [
      | inl k ↦ inl (sym t ∙ k)
      | inr k ↦ inr (ap (replay codec) (sym l) ∙ k ∙ ap ok p)
    ];
  }

  pub IsRecoverable-free :
      (w : World C) (a : Answer) (answers : List Answer)
      → w.answers ≡ a ∷ answers
      → IsRecoverable codec base w
      → IsRecoverable codec base (record w { answers = answers })
  IsRecoverable-free w a answers e h = record {
    batch = h.batch;
    replays = h.replays;
    more = h.more;
    grown = h.grown;
    calm = λ q. ((h.calm q).0, (subst (All NeverTears) e (h.calm q).1).1);
  }

  pub IsCoherent-free :
      (w : World C) (a : Answer) (answers : List Answer)
      → w.answers ≡ a ∷ answers
      → IsCoherent codec base w
      → IsCoherent codec base (record w { answers = answers })
  IsCoherent-free w a answers e h = record {
    recoverable = IsRecoverable-free w a answers e h.recoverable;
    at_hand = h.at_hand;
  }

  pub Preserves-call : Preserves (IsCoherent codec base) call
  Preserves-call = call_free _ IsCoherent-free

  pub Preserves-ask : Preserves (IsCoherent codec base) ask
  Preserves-ask = ask_free _ IsCoherent-free

  pub Preserves-produce : Preserves (IsCoherent codec base) produce
  Preserves-produce = produce_free _ IsCoherent-free

  pub Preserves-ask_word : Preserves (IsCoherent codec base) ask_word
  Preserves-ask_word = word_call_free _ IsCoherent-free

  -- a write of the variables of `execute`, or of the manifest
  pub Preserves-writes :
      (f : World C → World C)
      → ((w : World C)
          → (w.log ≡ (f w).log)
            × (w.tail ≡ (f w).tail)
            × (w.answers ≡ (f w).answers)
            × (w.held ≡ (f w).held))
      → Preserves (IsCoherent codec base) (writes f)
  unfolding writes
  Preserves-writes f same = record {
    from = λ w h. let (l, t, a, p) = same w in IsCoherent-same w (f w) l t a p h;
  }

  pub Preserves-raises_if :
      (b : Bool) (e : AppError) → Preserves (IsCoherent codec base) (raises_if b e)
  unfolding raises_if
  Preserves-raises_if b e = Preserves-pure _

  pub Preserves-job_of : (id : String) → Preserves (IsCoherent codec base) (job_of id)
  unfolding job_of
  Preserves-job_of id = search (preserves_rules)

  pub Preserves-write_manifest : Preserves (IsCoherent codec base) write_manifest
  unfolding write_manifest save_manifest
  Preserves-write_manifest =
      Preserves-bind _ _ (next_answer_free _ IsCoherent-free) (λ a. saved (written a))
    where
      saved : (x : Written) → Preserves (IsCoherent codec base) (save_manifest x)
      saved (unwritten e) = Preserves-raises e
      saved (partly e) = Preserves-raises e
      saved (wholly_then e) =
          Preserves-bind _ _ (Preserves-writes _ (λ w. (refl, refl, refl, refl)))
            (λ _. Preserves-raises e)
      saved wholly = Preserves-writes _ (λ w. (refl, refl, refl, refl))
