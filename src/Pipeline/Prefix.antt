-- ===== src/Pipeline/Prefix.antt =====
-- A log that replays does so where it is cut off.
use video_captioner_z.Base.{
  ◌⊎◌, All, Result, err, inl, inr, subst, String, Bool, true, false, Option, none, some, ◌≡◌, refl,
  ◌++◌, ◌∙◌, sym, ap, List, [], ◌∷◌, ok, AppError, bind_returned,
}
use video_captioner_z.Base
use mathlib.Core.List.{append_assoc}
use video_captioner_z.Job.{ConfigCodec}
use video_captioner_z.Event.{JournalEvent}
use video_captioner_z.Batch.{BatchProjection}
use video_captioner_z.Journal.{apply_event, apply_events, non_empty, replay}

module _ {C : Type 0} (codec : ConfigCodec C) where
  -- A log that replays does so at each of its prefixes, from a batch on.
  apply_events-prefix :
      (p : BatchProjection C) (xs ys : List JournalEvent) (o : Option (BatchProjection C))
      → apply_events codec (some p) (xs ++ ys) ≡ ok o
      → (q : BatchProjection C) × (apply_events codec (some p) xs ≡ ok (some q))
  unfolding apply_events Base.◌>>=◌
  apply_events-prefix p [] ys o h = (p, refl)
  apply_events-prefix p (e ∷ xs) ys o h =
      let (r, first, rest) = bind_returned (apply_event codec (some p) e) _ h in
      let (q, k) = apply_events-prefix r xs ys o rest in
      (q, ap (λ x. Base.◌>>=◌ x (λ y. apply_events codec (some y) xs)) first ∙ k)

  replay-prefix :
      (e : JournalEvent) (xs ys : List JournalEvent) (p : BatchProjection C)
      → replay codec (e ∷ xs ++ ys) ≡ ok p
      → (q : BatchProjection C) × (replay codec (e ∷ xs) ≡ ok q)
  unfolding replay apply_events Base.◌>>=◌
  replay-prefix e xs ys p h =
      let (o, all_events, _) = bind_returned (apply_events codec none (e ∷ xs ++ ys)) _ h in
      let (r, first, rest) = bind_returned (apply_event codec none e) _ all_events in
      let (q, k) = apply_events-prefix r xs ys o rest in
      (
        q,
        ap (λ x. Base.◌>>=◌ (Base.◌>>=◌ x (λ y. apply_events codec (some y) xs)) non_empty) first
            ∙ ap (λ x. Base.◌>>=◌ x non_empty) k,
      )

  pub prefix_replays :
      (log more cut rest : List JournalEvent) (p q : BatchProjection C)
      → replay codec log ≡ ok p
      → replay codec (log ++ more) ≡ ok q
      → more ≡ cut ++ rest
      → (r : BatchProjection C) × (replay codec (log ++ cut) ≡ ok r)
  unfolding replay apply_events Base.◌>>=◌ non_empty
  prefix_replays [] more cut rest p q h k l = absurd (cc)
  prefix_replays (e ∷ log) more cut rest p q h k l = replay-prefix e (log ++ cut) rest q (
      ap (λ x. replay codec (e ∷ x)) (append_assoc log cut rest)
      ∙ ap (λ x. replay codec (e ∷ log ++ x)) (sym l)
      ∙ k)
