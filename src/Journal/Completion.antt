-- ===== src/Journal/Completion.antt =====
-- core/domain/journal.py: success in a replayed batch.
use video_captioner_z.Base.{
  String, ◌≡◌, ◌≢◌, sym, ap, subst, ◌∙◌, none, some, List, [], ◌∷◌, ◌++◌, All, All-append,
  Bool-cases, inl, inr, str_eq, arith, Result, ok, ◌>>=◌, bind_returned, Ensures, Ensures-ok,
  Ensures-err, Ensures-bind, Ensures-raise_if, Ensures-weaken,
}
use video_captioner_z.Json.{Fields}
use video_captioner_z.Stage.{StageName}
use video_captioner_z.Job.{ConfigCodec, JobProjection, JobState}
use video_captioner_z.Job.Plan.{HasPlan, job_projection-Builds}
use video_captioner_z.Batch.{BatchProjection}
use video_captioner_z.Event.{
  EventType, batch_config_updated, job_created, job_config_updated, JournalEvent,
}
use video_captioner_z.JobEvents.{apply_to_job}
use video_captioner_z.JobEvents.Completion.{IsComplete, apply_to_job-IsComplete, replace-IsComplete}
use video_captioner_z.Journal.{
  update_job, reconfigure_jobs, apply_payload, apply_event, apply_events, replay,
}
use video_captioner_z.Journal.Chain.{first_event, non_empty-eq-ok}
use video_captioner_z.Journal.Steps.{jobs-replace_jobs, apply_event-jobs}
use video_captioner_z.Journal.WellFormed.{
  IsWellFormed, apply_event-IsWellFormed, first-IsWellFormed, planned,
}

module _ {C : Type 0} (codec : ConfigCodec C) where
  update_job-All :
      (P : JobProjection C → Type 0) (id : String) (f : JobProjection C → Result (JobProjection C))
      → ((j : JobProjection C) → HasPlan codec j → Ensures P (f j))
      → (js : List (JobProjection C)) → All (HasPlan codec) js
      → All P js
      → Ensures (All P) (update_job id f js)
  unfolding update_job
  update_job-All P id f step [] h g = Ensures-err _
  update_job-All P id f step (j ∷ js) h g = elim (Bool-cases (str_eq j.job_id id)) [
    | inl e ↦ rw e (Ensures-bind _ _ (λ k hk. Ensures-ok _ ((step j h.0).at k hk, g.1)))
    | inr e ↦ rw e (
        Ensures-bind _ _
          (λ ks hks. Ensures-ok _ (g.0, (update_job-All P id f step js h.1 g.1).at ks hks)))
  ]

  reconfigure_jobs-IsComplete :
      (config : C) (earliest : StageName) (js : List (JobProjection C))
      → Ensures (All IsComplete) (reconfigure_jobs codec config earliest js)
  unfolding reconfigure_jobs
  reconfigure_jobs-IsComplete config earliest [] = Ensures-ok _ tt
  reconfigure_jobs-IsComplete config earliest (j ∷ js) = Ensures-bind _ _ (λ k hk.
      Ensures-bind _ _ (λ ks hks. Ensures-ok _ (
        (replace-IsComplete codec j config _ _ (λ e. ground arith)).at k hk,
        (reconfigure_jobs-IsComplete config earliest js).at ks hks,
      )))

  apply_payload-IsComplete :
      (p : BatchProjection C) (type : EventType) (payload : Fields)
      → type ≢ job_config_updated
      → All (HasPlan codec) p.jobs
      → All IsComplete p.jobs
      → Ensures (λ q. All IsComplete q.jobs) (apply_payload codec p type payload)
  unfolding apply_payload
  apply_payload-IsComplete p batch_config_updated payload c h g = Ensures-raise_if _ _ _ (λ _.
      Ensures-bind _ _ (λ config _. Ensures-bind _ _ (λ earliest _. Ensures-raise_if _ _ _ (λ _.
        Ensures-bind _ _ (λ jobs u.
          Ensures-weaken _ _
            (λ q e.
              subst (All IsComplete) (sym e)
                ((reconfigure_jobs-IsComplete config earliest p.jobs).at jobs u))
            (jobs-replace_jobs p jobs))))))
  apply_payload-IsComplete p job_created payload c h g = Ensures-bind _ _ (λ id _.
      Ensures-raise_if _ _ _ (λ _. Ensures-bind _ _ (λ path _. Ensures-bind _ _ (λ config _.
        Ensures-bind _ _ (λ job b.
          Ensures-weaken _ _
            (λ q e. subst (All IsComplete) (sym e) (
              All-append IsComplete p.jobs (job ∷ []) g (
                λ s. absurd (
                    cc (
                      ((job_projection-Builds codec id path config JobState.pending []).at job
                          b).state_given,
                      s,
                    )),
                tt,
              )))
            (jobs-replace_jobs p (p.jobs ++ job ∷ [])))))))
  apply_payload-IsComplete p type payload c h g = Ensures-bind _ _ (λ id _.
      Ensures-bind _ _ (λ jobs u.
        Ensures-weaken _ _
          (λ q e. subst (All IsComplete) (sym e) (
            (update_job-All IsComplete id (λ j. apply_to_job codec j type payload)
                (λ j w. apply_to_job-IsComplete codec j type payload w c) p.jobs h g).at
              jobs u))
          (jobs-replace_jobs p jobs)))

  abbrev pub NoJobConfigUpdate : List JournalEvent → Type 0
  NoJobConfigUpdate = All (λ e. e.type ≢ job_config_updated)

  apply_events-IsComplete :
      (p : BatchProjection C) (es : List JournalEvent) (q : BatchProjection C)
      → NoJobConfigUpdate es
      → IsWellFormed codec p
      → All IsComplete p.jobs
      → apply_events codec (some p) es ≡ ok (some q)
      → All IsComplete q.jobs
  unfolding apply_events
  apply_events-IsComplete p [] q n w g h =
      let e : p ≡ q = cc in subst (λ (p : BatchProjection C). All IsComplete p.jobs) e g
  apply_events-IsComplete p (e ∷ es) q n w g h =
      let (r, first, rest) = bind_returned (apply_event codec (some p) e) _ h in
      let done =
        (apply_event-jobs codec (All IsComplete) p e (
            apply_payload-IsComplete p e.type e.payload n.0 (planned codec p.jobs (w.good).each)
              g)).at
          r first in
      apply_events-IsComplete r es q n.1 (apply_event-IsWellFormed codec p e r w first) done rest

  -- In a batch replayed from a log without `job.config_updated` events, every job that has
  -- succeeded has all its stages committed.
  pub replay-IsComplete :
      (events : List JournalEvent) (p : BatchProjection C)
      → NoJobConfigUpdate events
      → replay codec events ≡ ok p
      → All IsComplete p.jobs
  unfolding replay apply_events ◌>>=◌
  replay-IsComplete [] p n h = absurd (cc)
  replay-IsComplete (e ∷ es) p n h =
      let (o, all_events, some_p) = bind_returned (apply_events codec none (e ∷ es)) _ h in
      let (r, first, rest) = bind_returned (apply_event codec none e) _ all_events in
      let none_yet : r.jobs ≡ [] = cc (((first_event codec e).at r first).1) in
      apply_events-IsComplete r es p n.1 (first-IsWellFormed codec e r first)
        (subst (All IsComplete) (sym none_yet) tt) (rest ∙ ap ok (non_empty-eq-ok codec o p some_p))
