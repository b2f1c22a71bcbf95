-- ===== src/Service/Append.antt =====
-- The append of an event keeps the journal replayable, however its write ends.
use video_captioner_z.Base.{
  suc, ◌≡◌, ◌≢◌, inl, inr, All, raise_if, refl, sym, ap, ◌∙◌, subst, some, List, [], ◌∷◌, ◌++◌,
  Result, ok, err, AppError, bind_returned, ok-injective,
}
use mathlib.Core.List.{append_assoc}
use video_captioner_z.Json.{Fields}
use video_captioner_z.Job.{ConfigCodec}
use video_captioner_z.Batch.{BatchProjection}
use video_captioner_z.Event.{EventType, JournalEvent, journal_event}
use video_captioner_z.Journal.{apply_event, replay}
use video_captioner_z.Service.{
  Answer, done, fails, fails_late, tears, says, gives, named, World, Tail, whole, torn, corrupt,
  Written, written, unwritten, partly, wholly_then, wholly, write_line, is_corrupt, corrupt_line,
  raises, reads, writes, resume_with, ◌>>=◌, pop, next_answer, EventFactory, propose, prepare,
  write_event, append_event, check_append,
}
use video_captioner_z.Service.Preserves.{Preserves}
use video_captioner_z.Service.Coherent.{
  Start, NeverTears, IsRecoverable, IsCoherent, replay-snoc, IsCoherent-same, IsCoherent-free,
}

module _ {C : Type 0} {codec : ConfigCodec C} {base : Start} where
  -- the tail changes, which happens only where lines may be torn
  spoiled :
      (w v : World C)
      → (base.is_quiet → ⊥)
      → w.log ≡ v.log
      → IsRecoverable codec base w
      → IsRecoverable codec base v
  spoiled w v loud l h = record {
    batch = h.batch;
    replays = ap (replay codec) (sym l) ∙ h.replays;
    more = h.more;
    grown = sym l ∙ h.grown;
    calm = λ q. absurd (loud q);
  }

  -- The log takes an event that the projection at hand accepts.
  logged :
      (w : World C) (e : JournalEvent) (q : BatchProjection C)
      → w.tail ≡ whole
      → IsCoherent codec base w
      → apply_event codec (some w.held) e ≡ ok q
      → IsCoherent codec base (record w { log = w.log ++ e ∷ []; held = q })
  logged w e q t h a =
      let current : replay codec w.log ≡ ok w.held = elim h.at_hand [
        | inl k ↦ absurd (cc)
        | inr k ↦ k
      ] in
      let replays = replay-snoc codec w.log e w.held q current a in
      record {
        recoverable = record {
          batch = q;
          replays = replays;
          more = h.recoverable.more ++ e ∷ [];
          grown =
              ap (λ log. log ++ e ∷ []) h.recoverable.grown
              ∙ append_assoc base.events h.recoverable.more (e ∷ []);
          calm = h.recoverable.calm;
        };
        at_hand = inr replays;
      }

  -- a line that may be torn is written
  Preserves-write_line :
      (w : World C) (e : JournalEvent) (q : BatchProjection C) (x : Written)
      → IsCoherent codec base w
      → apply_event codec (some w.held) e ≡ ok q
      → (base.is_quiet → (f : AppError) → x ≢ partly f)
      → (t : Tail) → w.tail ≡ t
      → IsCoherent codec base (write_line e q t x w).1
  unfolding write_line ◌>>=◌ writes raises
  Preserves-write_line w e q (unwritten f) h a loud whole i = h
  Preserves-write_line w e q (partly f) h a loud whole i = record {
    recoverable =
        spoiled w (record w { tail = torn }) (λ k. absurd (loud k f refl)) refl h.recoverable;
    at_hand = elim h.at_hand [ inl k ↦ absurd (cc) | inr k ↦ inr k ];
  }
  Preserves-write_line w e q (wholly_then f) h a loud whole i = logged w e q i h a
  Preserves-write_line w e q wholly h a loud whole i = logged w e q i h a
  Preserves-write_line w e q (unwritten f) h a loud torn i = h
  Preserves-write_line w e q (partly f) h a loud torn i = h
  Preserves-write_line w e q (wholly_then f) h a loud torn i = record {
    recoverable =
        spoiled w (record w { tail = corrupt })
          (λ k. absurd (cc (sym (h.recoverable.calm k).0 ∙ i))) refl h.recoverable;
    at_hand = inl refl;
  }
  Preserves-write_line w e q wholly h a loud torn i = record {
    recoverable =
        spoiled w (record w { tail = corrupt; held = q })
          (λ k. absurd (cc (sym (h.recoverable.calm k).0 ∙ i))) refl h.recoverable;
    at_hand = inl refl;
  }
  Preserves-write_line w e q x h a loud corrupt i = h

module _ {C : Type 0} (codec : ConfigCodec C) (factory : EventFactory) where
  -- the event and the projection that `prepare` returns fit the projection at hand
  pub prepared :
      (w : World C) (type : EventType) (payload : Fields) (e : JournalEvent) (q : BatchProjection C)
      → prepare codec factory w type payload ≡ ok (e, q)
      → apply_event codec (some w.held) e ≡ ok q
  unfolding prepare propose
  prepared w type payload e q h =
      let (x, proposed, h0) = bind_returned (propose codec factory w type payload) _ h in
      let (f, _, h1) =
        bind_returned (journal_event factory.is_timestamp _ _ _ _ type payload) _ proposed in
      let (r, accepted, h2) = bind_returned (apply_event codec (some w.held) f) _ h1 in
      let (_, _, h2b) = bind_returned (raise_if (is_corrupt w.tail) corrupt_line) _ h0 in
      let (_, _, h3) = bind_returned (check_append w.log x.0) _ h2b in
      let same : (f, r) ≡ (e, q) = ok-injective (f, r) (f, r) x h2 ∙ ok-injective x x (e, q) h3 in
      subst (λ (x : JournalEvent × BatchProjection C). apply_event codec (some w.held) x.0 ≡ ok x.1)
        same accepted

module _ {C : Type 0} {codec : ConfigCodec C} {base : Start} (factory : EventFactory) where
  pub Preserves-append_event :
      (type : EventType) (payload : Fields)
      → Preserves (IsCoherent codec base) (append_event codec factory type payload)
  unfolding append_event write_event ◌>>=◌ reads next_answer written
  Preserves-append_event type payload = record {
    from = λ w h. proposed w h (prepare codec factory w type payload) refl;
  }
    where
      not_partly : (a : Answer) → NeverTears a → (f : AppError) → written a ≢ partly f
      not_partly (fails e) n f k = absurd (cc)
      not_partly (tears e) n f k = absurd (n e refl)
      not_partly (fails_late e) n f k = absurd (cc)
      not_partly done n f k = absurd (cc)
      not_partly (says b) n f k = absurd (cc)
      not_partly (gives refs) n f k = absurd (cc)
      not_partly (named s) n f k = absurd (cc)

      stored :
          (w : World C) (e : JournalEvent) (q : BatchProjection C)
          → IsCoherent codec base w
          → apply_event codec (some w.held) e ≡ ok q
          → (answers : List Answer) → w.answers ≡ answers
          → IsCoherent codec base
              (resume_with
                (λ a. reads (λ v. v.tail) >>= λ t. write_line e q t (written a))
                (pop answers w)).1
      stored w e q h a [] i =
          Preserves-write_line w e q wholly h a (λ k f l. absurd (cc)) w.tail refl
      stored w e q h a (x ∷ answers) i =
          Preserves-write_line (record w { answers = answers }) e q (written x)
            (IsCoherent-free w x answers i h) a
            (λ k. not_partly x (subst (All NeverTears) i (h.recoverable.calm k).1).0) w.tail refl

      proposed :
          (w : World C)
          → IsCoherent codec base w
          → (r : Result (JournalEvent × BatchProjection C))
          → prepare codec factory w type payload ≡ r
          → IsCoherent codec base
              (write_event codec factory r (record w { next_event = suc w.next_event })).1
      proposed w h (err e) k = IsCoherent-same w _ refl refl refl refl h
      proposed w h (ok (e, q)) k =
          stored (record w { next_event = suc w.next_event }) e q
            (IsCoherent-same w _ refl refl refl refl h)
            (prepared codec factory w type payload e q k) w.answers refl
