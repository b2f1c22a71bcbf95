-- ===== src/Journal/Chain.antt =====
-- core/domain/journal.py: what an accepted log looks like. Its sequence numbers count up from 1
-- without a gap, it is of one batch, and no event stands in it twice.
use video_captioner_z.Base.{
  subst, ℕ, suc, ◌+◌, String, ◌≡◌, refl, sym, ap, ◌∙◌, true, false, Option, none, some, List, [],
  ◌∷◌, length, map, All, All-weaken, contains, distinct, eq_iff, arith, ok, ◌>>=◌, raise_if,
  bind_returned, Ensures, Ensures-ok, Ensures-bind, Ensures-raise_if, Ensures-weaken, ensures_rules,
}
use video_captioner_z.Json.{Fields}
use video_captioner_z.Job.{ConfigCodec, JobProjection}
use video_captioner_z.Batch.{BatchProjection, batch_projection}
use video_captioner_z.Event.{EventType, batch_config_updated, job_created, JournalEvent}
use video_captioner_z.Journal.{
  replace_jobs, apply_payload, validate_envelope, apply_event, apply_events, non_empty, replay,
}

-- The sequence numbers count up from `n`.
abbrev pub Numbered : ℕ → List JournalEvent → Type 0
Numbered n [] = Unit
Numbered n (e ∷ es) = (e.seq ≡ n) × Numbered (suc n) es

abbrev pub ids_of : List JournalEvent → List String
ids_of = map (λ e. e.event_id)

contains-ids_of :
    (id : String) (ids : List String) (es : List JournalEvent)
    → All (λ e. contains (id ∷ ids) e.event_id ≡ false) es
    → contains (ids_of es) id ≡ false
contains-ids_of id ids [] h = refl
contains-ids_of id ids (e ∷ es) h =
    ground (arith, eq_iff id e.event_id, eq_iff e.event_id id, contains-ids_of id ids es h.1)

older-fresh :
    (id : String) (ids : List String) (k : String)
    → contains (id ∷ ids) k ≡ false
    → contains ids k ≡ false
older-fresh id ids k h = ground arith

module _ {C : Type 0} where
  -- the parts of a batch that a payload does not touch
  pub record SameEnvelope (p q : BatchProjection C) : Type 0 where
    pub batch : q.batch_id ≡ p.batch_id
    pub seq : q.last_event_seq ≡ p.last_event_seq
    pub ids : q.event_ids ≡ p.event_ids

  pub batch_projection_lem :
      (id : String) (jobs : List (JobProjection C)) (seq : ℕ) (ids : List String)
      → Ensures
          (λ (q : BatchProjection C).
            q ≡ record { batch_id = id; jobs = jobs; last_event_seq = seq; event_ids = ids })
          (batch_projection id jobs seq ids)
  unfolding batch_projection
  batch_projection_lem id jobs seq ids = Ensures-bind _ _ (λ _ _. Ensures-ok _ refl)

  replace_jobs-SameEnvelope :
      (p : BatchProjection C) (jobs : List (JobProjection C))
      → Ensures (SameEnvelope p) (replace_jobs p jobs)
  unfolding replace_jobs
  replace_jobs-SameEnvelope p jobs =
      Ensures-weaken _ _ (λ q e. ground arith) (batch_projection_lem _ _ _ _)

module _ {C : Type 0} (codec : ConfigCodec C) where
  apply_payload-SameEnvelope :
      (p : BatchProjection C) (type : EventType) (payload : Fields)
      → Ensures (SameEnvelope p) (apply_payload codec p type payload)
  unfolding apply_payload
  apply_payload-SameEnvelope p batch_config_updated payload =
      search (ensures_rules, replace_jobs-SameEnvelope) depth 9
  apply_payload-SameEnvelope p job_created payload =
      search (ensures_rules, replace_jobs-SameEnvelope) depth 9
  apply_payload-SameEnvelope p _ payload = search (ensures_rules, replace_jobs-SameEnvelope) depth 9

  -- What an accepted event shows of itself and of the batch that it makes.
  pub record Accepts (p : BatchProjection C) (e : JournalEvent) (q : BatchProjection C)
      : Type 0 where
    pub same_batch : e.batch_id ≡ p.batch_id
    pub next : e.seq ≡ suc p.last_event_seq
    pub fresh : contains p.event_ids e.event_id ≡ false
    pub batch : q.batch_id ≡ p.batch_id
    pub seq : q.last_event_seq ≡ e.seq
    pub ids : q.event_ids ≡ e.event_id ∷ p.event_ids

  finish-Accepts :
      (p u : BatchProjection C) (e : JournalEvent)
      → SameEnvelope p u
      → e.batch_id ≡ p.batch_id
      → e.seq ≡ suc p.last_event_seq
      → contains p.event_ids e.event_id ≡ false
      → Ensures (Accepts p e) (batch_projection u.batch_id u.jobs e.seq (e.event_id ∷ u.event_ids))
  finish-Accepts p u e s b n f =
      Ensures-weaken _ _ (λ q h. ground arith) (batch_projection_lem _ _ _ _)

  envelope_facts :
      (p : BatchProjection C) (e : JournalEvent)
      → Ensures
          (λ _.
            (e.batch_id ≡ p.batch_id)
            × (e.seq ≡ suc p.last_event_seq)
            × (contains p.event_ids e.event_id ≡ false))
          (validate_envelope p e)
  unfolding validate_envelope ◌>>=◌ raise_if
  envelope_facts p e = record { at = λ _ h. ground (arith, eq_iff e.batch_id p.batch_id) }

  pub apply_event-Accepts :
      (p : BatchProjection C) (e : JournalEvent)
      → Ensures (Accepts p e) (apply_event codec (some p) e)
  unfolding apply_event
  apply_event-Accepts p e = Ensures-bind _ _ (λ _ h. Ensures-raise_if _ _ _ (λ _.
      Ensures-bind _ _ (λ u hu. Ensures-bind _ _ (λ _ _.
        let (a, b, c) = (envelope_facts p e).at _ h in
        finish-Accepts p u e ((apply_payload-SameEnvelope p e.type e.payload).at u hu) a b c))))

-- What a log that carries `p` on to `q` looks like.
record Extends {C : Type 0} (p : BatchProjection C) (es : List JournalEvent) (q : BatchProjection C)
    : Type 0 where
  batch : q.batch_id ≡ p.batch_id
  batches : All (λ e. e.batch_id ≡ p.batch_id) es
  seq : q.last_event_seq ≡ p.last_event_seq + length es
  numbered : Numbered (suc p.last_event_seq) es
  fresh : All (λ e. contains p.event_ids e.event_id ≡ false) es
  once : distinct (ids_of es) ≡ true

module _ {C : Type 0} (codec : ConfigCodec C) where
  Extends-cons :
      (p r q : BatchProjection C) (e : JournalEvent) (es : List JournalEvent)
      → Accepts codec p e r
      → Extends r es q
      → Extends p (e ∷ es) q
  Extends-cons p r q e es a x = record {
    batch = x.batch ∙ a.batch;
    batches = (a.same_batch, All-weaken _ _ es (λ f h. h ∙ a.batch) x.batches);
    seq = omega (arith, x.seq, a.seq, a.next);
    numbered = (a.next, rw (a.seq, a.next) at x.numbered);
    fresh = (
      a.fresh,
      All-weaken _ _ es (λ f h. older-fresh e.event_id p.event_ids f.event_id (rw a.ids at h))
          x.fresh,
    );
    once = ground (arith, x.once, contains-ids_of e.event_id p.event_ids es (rw a.ids at x.fresh));
  }

  apply_events-Extends :
      (p : BatchProjection C) (es : List JournalEvent) (q : BatchProjection C)
      → apply_events codec (some p) es ≡ ok (some q)
      → Extends p es q
  unfolding apply_events
  apply_events-Extends p [] q h =
      let e : p ≡ q = cc in
      subst (Extends p []) e (record {
        batch = refl;
        batches = tt;
        seq = omega arith;
        numbered = tt;
        fresh = tt;
        once = refl;
      })
  apply_events-Extends p (e ∷ es) q h =
      let (r, first, rest) = bind_returned (apply_event codec (some p) e) _ h in
      Extends-cons p r q e es ((apply_event-Accepts codec p e).at r first)
        (apply_events-Extends r es q rest)

  -- The log of a batch: one batch, numbered from 1, and no event id twice.
  pub record IsLog (p : BatchProjection C) (events : List JournalEvent) : Type 0 where
    pub of_batch : All (λ e. e.batch_id ≡ p.batch_id) events
    pub numbered : Numbered 1 events
    pub once : distinct (ids_of events) ≡ true
    pub count : p.last_event_seq ≡ length events

  pub first_event :
      (e : JournalEvent)
      → Ensures
          (λ (p : BatchProjection C).
            (e.seq ≡ 1)
            × (p ≡ record {
              batch_id = e.batch_id;
              jobs = [];
              last_event_seq = 1;
              event_ids = e.event_id ∷ [];
            }))
          (apply_event codec none e)
  unfolding apply_event
  first_event e =
      Ensures-raise_if _ _ _
        (λ h. Ensures-weaken _ _ (λ p k. (ground arith, k)) (batch_projection_lem _ _ _ _))

  pub non_empty-eq-ok :
      (o : Option (BatchProjection C)) (p : BatchProjection C) → non_empty o ≡ ok p → o ≡ some p
  unfolding non_empty
  non_empty-eq-ok none p h = absurd (cc)
  non_empty-eq-ok (some q) p h = cc

  first-IsLog :
      (e : JournalEvent) (es : List JournalEvent) (r p : BatchProjection C)
      → e.seq ≡ 1
      → r ≡ record {
        batch_id = e.batch_id;
        jobs = [];
        last_event_seq = 1;
        event_ids = e.event_id ∷ [];
      }
      → Extends r es p
      → IsLog p (e ∷ es)
  first-IsLog e es r p n k x =
      let batch : p.batch_id ≡ e.batch_id = cc (x.batch, k) in
      let fresh =
        subst (λ (r : BatchProjection C). All (λ f. contains r.event_ids f.event_id ≡ false) es) k
          x.fresh in
      let from_two =
        subst (λ (r : BatchProjection C). Numbered (suc r.last_event_seq) es) k x.numbered in
      record {
        of_batch = (sym batch, All-weaken _ _ es (λ f h. h ∙ sym x.batch) x.batches);
        numbered = (n, from_two);
        once = ground (arith, x.once, contains-ids_of e.event_id [] es fresh);
        count = ground (arith, x.seq);
      }

  -- If a log replays, then all its events are of the batch that comes out, their sequence numbers
  -- are 1, 2, 3, … in order, no event id occurs twice, and the projection's last sequence number
  -- is the number of events.
  pub replay-IsLog :
      (events : List JournalEvent) (p : BatchProjection C)
      → replay codec events ≡ ok p
      → IsLog p events
  unfolding replay apply_events ◌>>=◌
  replay-IsLog [] p h = absurd (cc)
  replay-IsLog (e ∷ es) p h =
      let (o, all_events, some_p) = bind_returned (apply_events codec none (e ∷ es)) _ h in
      let (r, first, rest) = bind_returned (apply_event codec none e) _ all_events in
      let (n, k) = (first_event e).at r first in
      first-IsLog e es r p n k
        (apply_events-Extends r es p (rest ∙ ap ok (non_empty-eq-ok o p some_p)))
