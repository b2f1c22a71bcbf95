-- ===== src/Pipeline/Recoverable.antt =====
-- core/application/durable_pipeline.py: what a request leaves in the journal, whatever happens
-- outside.
use video_captioner_z.Base.{◌⊎◌, All, Result, err, inl, inr, ◌≡◌, ◌++◌, ◌∙◌, sym, ap, List, [], ok}
use mathlib.Core.List.{append-nil}
use video_captioner_z.Json.{Value}
use video_captioner_z.Job.{ConfigCodec}
use video_captioner_z.Event.{JournalEvent}
use video_captioner_z.Batch.{BatchProjection}
use video_captioner_z.Journal.{replay}
use video_captioner_z.Journal.WellFormed.{IsWellFormed, replay-IsWellFormed}
use video_captioner_z.Service.{World, whole, corrupt, EventFactory}
use video_captioner_z.Service.Coherent.{Start, NeverTears, IsRecoverable, IsCoherent}
use video_captioner_z.Service.Methods.{
  Ends, Keeps, Keeps-method, method-Keeps, service_rules, keeps_rules,
}
use video_captioner_z.Pipeline.Coherence.{acknowledge-Keeps, invalidate-Keeps, interrupt-Keeps}
use video_captioner_z.Pipeline.Run.{StageRunners}
use video_captioner_z.Pipeline.{
  read_status, status, resume, retry, update_batch, update_job_config, Request, runs, resumes,
  shows_status, retries, acknowledges, updates_batch, updates_job, serve,
}
use video_captioner_z.Pipeline.Running.{Keeps-run}
use video_captioner_z.Pipeline.Status.{Preserves-job_issues, Preserves-raise_first}
use video_captioner_z.Pipeline.Prefix.{prefix_replays}

module _ {C : Type 0} (codec : ConfigCodec C) (factory : EventFactory) (runners : StageRunners C)
    (to_dict : C → Value) (base : Start) where
  Keeps-status : Keeps codec base (status codec factory runners to_dict)
  unfolding status read_status
  Keeps-status =
      Keeps-method _ (search (keeps_rules, Preserves-job_issues, Preserves-raise_first) depth 30)

  Keeps-resume : Keeps codec base (resume codec factory runners to_dict)
  unfolding resume
  Keeps-resume = Keeps-method _ (
      search (keeps_rules, interrupt-Keeps, invalidate-Keeps, acknowledge-Keeps, Keeps-run) depth
        30)

  serve-Keeps :
      (r : Request codec factory runners to_dict)
      → Keeps codec base (serve codec factory runners to_dict r)
  unfolding serve retry update_batch update_job_config
  serve-Keeps runs = Keeps-run codec factory runners base
  serve-Keeps resumes = Keeps-resume
  serve-Keeps shows_status = Keeps-status
  serve-Keeps (retries id n) =
      Keeps-method _ (search (keeps_rules, Keeps-status, Keeps-run) depth 30)
  serve-Keeps (acknowledges active) = acknowledge-Keeps codec factory base active
  serve-Keeps (updates_batch config earliest) = method-Keeps _ (search service_rules depth 30)
  serve-Keeps (updates_job config earliest id) = method-Keeps _ (search service_rules depth 30)

module _ {C : Type 0} (codec : ConfigCodec C) where
  -- where the request returned, the events replay to the projection at hand
  abbrev pub IsHeld : Result (Unit {0}) × World C → Type 0
  IsHeld (ok a, w) = replay codec w.log ≡ ok w.held
  IsHeld (err e, w) = Unit

  -- the same, or a complete line cannot be read
  abbrev pub ReadsAsHeld : Result (Unit {0}) × World C → Type 0
  ReadsAsHeld (ok a, w) = (w.tail ≡ corrupt) ⊎ (replay codec w.log ≡ ok w.held)
  ReadsAsHeld (err e, w) = Unit

module _ {C : Type 0} (codec : ConfigCodec C) (factory : EventFactory) (runners : StageRunners C)
    (to_dict : C → Value) where
  -- the result of a request, and the world after it
  abbrev served : Request codec factory runners to_dict → World C → Result (Unit {0}) × World C
  served r w = serve codec factory runners to_dict r w

  abbrev after : Request codec factory runners to_dict → World C → World C
  after r w = (served r w).1

  recovered :
      (base : Start) (r : Result (Unit {0}) × World C)
      → Ends (IsCoherent codec base) (IsRecoverable codec base) r
      → IsRecoverable codec base r.1
  recovered base (ok a, w) h = h.recoverable
  recovered base (err e, w) h = h

  returned :
      (base : Start) (r : Result (Unit {0}) × World C)
      → Ends (IsCoherent codec base) (IsRecoverable codec base) r
      → ReadsAsHeld codec r
  returned base (ok a, w) h = h.at_hand
  returned base (err e, w) h = tt

  -- a world that replays is where a request starts
  abbrev start : Type 0 → World C → Start
  start quiet w = record { events = w.log; is_quiet = quiet }

  begun :
      (quiet : Type 0) (w : World C)
      → replay codec w.log ≡ ok w.held
      → (quiet → (w.tail ≡ whole) × All NeverTears w.answers)
      → IsCoherent codec (start quiet w) w
  begun quiet w h k = record {
    recoverable = record {
      batch = w.held;
      replays = h;
      more = [];
      grown = sym (append-nil w.log);
      calm = k;
    };
    at_hand = inr h;
  }

  -- Let the journal's events replay to the projection at hand. Whatever request is served then, and
  -- whatever the calls of the outside answer, including errors and writes that stop within a line,
  -- the events that can be read of the journal afterwards are the old ones with others appended;
  -- they replay to a well-formed batch, and they replay also where the run is cut off after any of
  -- the appended events; and where the request returns, they replay to the projection at hand,
  -- unless a complete line of the journal cannot be read.
  pub serve-Recovers :
      (r : Request codec factory runners to_dict) (w : World C)
      → replay codec w.log ≡ ok w.held
      → (more : List JournalEvent) × ((after r w).log ≡ w.log ++ more)
        × ((p : BatchProjection C) × (replay codec (after r w).log ≡ ok p) × IsWellFormed codec p)
        × ReadsAsHeld codec (served r w)
        × ((cut rest : List JournalEvent)
            → more ≡ cut ++ rest
            → (p : BatchProjection C) × (replay codec (w.log ++ cut) ≡ ok p))
  serve-Recovers r w h =
      let base = start ⊥ w in
      let ends =
        (serve-Keeps codec factory runners to_dict base r).from w
          (begun ⊥ w h (λ none. absurd none)) in
      let k = recovered base (served r w) ends in
      (
        k.more,
        k.grown,
        (k.batch, k.replays, replay-IsWellFormed codec _ _ k.replays),
        returned base (served r w) ends,
        λ cut rest l.
            prefix_replays codec w.log k.more cut rest w.held k.batch h
              (ap (replay codec) (sym k.grown) ∙ k.replays) l,
      )

  -- Let the journal be whole, its events replay to the projection at hand, and no call stop within
  -- a line. Whatever request is served then, and whatever the calls answer otherwise, the journal
  -- is whole afterwards; and where the request returns, its events replay to the projection at
  -- hand.
  pub serve-StaysWhole :
      (r : Request codec factory runners to_dict) (w : World C)
      → replay codec w.log ≡ ok w.held
      → w.tail ≡ whole
      → All NeverTears w.answers
      → ((after r w).tail ≡ whole) × IsHeld codec (served r w)
  serve-StaysWhole r w h t a =
      let quiet = (w.tail ≡ whole) × All NeverTears w.answers in
      let base = start quiet w in
      let ends =
        (serve-Keeps codec factory runners to_dict base r).from w (begun quiet w h (λ q. q)) in
      let k = recovered base (served r w) ends in
      let still = (k.calm (t, a)).0 in
      (still, held_if_whole (served r w) still (returned base (served r w) ends))
    where
      held_if_whole :
          (x : Result (Unit {0}) × World C)
          → x.1.tail ≡ whole
          → ReadsAsHeld codec x
          → IsHeld codec x
      held_if_whole (ok a, v) t (inl c) = absurd (cc)
      held_if_whole (ok a, v) t (inr k) = k
      held_if_whole (err e, v) t k = tt
