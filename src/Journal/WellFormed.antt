-- ===== src/Journal/WellFormed.antt =====
-- core/domain/journal.py: the invariant of every batch projection that a replay returns.
use video_captioner_z.Base.{
  All-weaken, Bool-cases, inl, inr, ◌≡◌, refl, sym, ap, subst, ◌∙◌, true, false, none, some, List,
  [], ◌∷◌, all, arith, All, Pairs, done, next, ok, ◌>>=◌, raise_if, bind_returned, Ensures,
  Ensures-weaken, Ensures-bind, Ensures-raise_if,
}
use video_captioner_z.Json.{Fields}
use video_captioner_z.Job.{ConfigCodec, JobProjection}
use video_captioner_z.Batch.{BatchProjection}
use video_captioner_z.Event.{
  EventType, batch_config_updated, job_created, JournalEvent, is_batch_created,
}
use video_captioner_z.Journal.{
  apply_payload, apply_event, apply_events, replay, one_signature, validate_common_runtime,
  checks_signatures,
}
use video_captioner_z.Job.Plan.{HasPlan}
use video_captioner_z.JobEvents.Steps.{JobStep}
use video_captioner_z.Journal.Chain.{batch_projection_lem, first_event, non_empty-eq-ok}
use video_captioner_z.Journal.Steps.{apply_event-jobs, apply_event-Steps, changes_plan}
use video_captioner_z.Journal.Updates.{
  IsGood, AreGood, Pairs-AreGood, update_one-JobUpdate, update_batch_config-JobUpdate,
  create_job-AreGood,
}

module _ {C : Type 0} (codec : ConfigCodec C) where
  apply_payload-AreGood :
      (p : BatchProjection C) (type : EventType) (payload : Fields)
      → AreGood codec p.jobs
      → Ensures (λ q. AreGood codec q.jobs) (apply_payload codec p type payload)
  unfolding apply_payload
  apply_payload-AreGood p batch_config_updated payload g =
      Ensures-weaken _ _ (λ q u. Pairs-AreGood codec u g)
        (update_batch_config-JobUpdate codec p payload g.each)
  apply_payload-AreGood p job_created payload g = create_job-AreGood codec p payload g
  apply_payload-AreGood p type payload g =
      Ensures-weaken _ _ (λ q u. Pairs-AreGood codec u g)
        (update_one-JobUpdate codec p type payload g.each)

  -- A batch is well formed: its jobs have distinct ids and one runtime signature, each has the
  -- stages of its plan, and each committed stage has its cache key and artifacts.
  pub record IsWellFormed (p : BatchProjection C) : Type 0 where
    pub good : AreGood codec p.jobs
    pub one : one_signature codec p.jobs ≡ true

  same_configs :
      {js ks : List (JobProjection C)} (j k : JobProjection C)
      → k.config ≡ j.config
      → Pairs (JobStep codec) js ks
      → all (λ l. codec.same_signature k.config l.config) ks
        ≡ all (λ l. codec.same_signature j.config l.config) js
  same_configs j k e done = refl
  same_configs j k e (next s t) = ground (arith, e, s.same_config, same_configs j k e t)

  one_signature-Steps :
      {js ks : List (JobProjection C)}
      → Pairs (JobStep codec) js ks
      → one_signature codec ks ≡ one_signature codec js
  unfolding one_signature
  one_signature-Steps done = refl
  one_signature-Steps (next {x = j} {y = k} s t) = same_configs j k s.same_config t

  checked_signature :
      (type : EventType) (u : BatchProjection C)
      → checks_signatures type ≡ true
      → Ensures (λ _. one_signature codec u.jobs ≡ true) (validate_common_runtime codec type u)
  unfolding validate_common_runtime raise_if
  checked_signature type u c = record { at = λ _ h. ground arith }

  checks-changes_plan :
      (type : EventType)
      → is_batch_created type ≡ false
      → changes_plan type ≡ true
      → checks_signatures type ≡ true
  checks-changes_plan type b c = ground arith

  apply_event-checked :
      (p : BatchProjection C) (e : JournalEvent)
      → changes_plan e.type ≡ true
      → Ensures (λ q. one_signature codec q.jobs ≡ true) (apply_event codec (some p) e)
  unfolding apply_event
  apply_event-checked p e c = Ensures-bind _ _ (λ _ _. Ensures-raise_if _ _ _ (λ b.
      Ensures-bind _ _ (λ u _. Ensures-bind _ _ (λ _ v.
        Ensures-weaken _ _
          (λ q k.
            subst (λ (js : List (JobProjection C)). one_signature codec js ≡ true)
              (sym (ground arith))
              ((checked_signature e.type u (checks-changes_plan e.type b c)).at _ v))
          (batch_projection_lem _ _ _ _)))))

  pub planned : (js : List (JobProjection C)) → All (IsGood codec) js → All (HasPlan codec) js
  planned js h = All-weaken (IsGood codec) (HasPlan codec) js (λ j g. g.planned) h

  -- Every accepted event keeps a batch well formed, whatever its type and payload.
  pub apply_event-IsWellFormed :
      (p : BatchProjection C) (e : JournalEvent) (q : BatchProjection C)
      → IsWellFormed p
      → apply_event codec (some p) e ≡ ok q
      → IsWellFormed q
  apply_event-IsWellFormed p e q w a = record {
    good =
        (apply_event-jobs codec (AreGood codec) p e
            (apply_payload-AreGood p e.type e.payload w.good)).at
          q a;
    one = elim (Bool-cases (changes_plan e.type)) [
      | inl c ↦ (apply_event-checked p e c).at q a
      | inr c ↦
          one_signature-Steps (apply_event-Steps codec p e q (planned p.jobs (w.good).each) c a)
          ∙ w.one
    ];
  }

  pub first-IsWellFormed :
      (e : JournalEvent) (r : BatchProjection C) → apply_event codec none e ≡ ok r → IsWellFormed r
  unfolding one_signature
  first-IsWellFormed e r h =
      let none_yet : r.jobs ≡ [] = cc (((first_event codec e).at r h).1) in
      record {
        good = subst (AreGood codec) (sym none_yet) (record { unique = refl; each = tt });
        one = ap (one_signature codec) none_yet;
      }

  apply_events-IsWellFormed :
      (p : BatchProjection C) (es : List JournalEvent) (q : BatchProjection C)
      → IsWellFormed p
      → apply_events codec (some p) es ≡ ok (some q)
      → IsWellFormed q
  unfolding apply_events
  apply_events-IsWellFormed p [] q w h = let e : p ≡ q = cc in subst IsWellFormed e w
  apply_events-IsWellFormed p (e ∷ es) q w h =
      let (r, first, rest) = bind_returned (apply_event codec (some p) e) _ h in
      apply_events-IsWellFormed r es q (apply_event-IsWellFormed p e r w first) rest

  -- Whatever log replays, the batch that comes out is well formed: its jobs have distinct ids and
  -- one runtime signature, each job has exactly the stages of its profile's plan in order, and
  -- every committed stage carries a cache key of the right form and at least one artifact.
  pub replay-IsWellFormed :
      (events : List JournalEvent) (p : BatchProjection C)
      → replay codec events ≡ ok p
      → IsWellFormed p
  unfolding replay apply_events ◌>>=◌
  replay-IsWellFormed [] p h = absurd (cc)
  replay-IsWellFormed (e ∷ es) p h =
      let (o, all_events, some_p) = bind_returned (apply_events codec none (e ∷ es)) _ h in
      let (r, first, rest) = bind_returned (apply_event codec none e) _ all_events in
      apply_events-IsWellFormed r es p (first-IsWellFormed e r first)
        (rest ∙ ap ok (non_empty-eq-ok codec o p some_p))
