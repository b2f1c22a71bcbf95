-- ===== src/Execution/Cancel.antt =====
-- The tasks that `cancel_queued` leaves, none of the waiting ones having a future.
use video_captioner_z.Base.{
  ◌≡◌, refl, sym, ap, ◌∙◌, String, Bool, true, false, not, ◌&&◌, ◌||◌, List, [], ◌∷◌, contains,
  distinct, All, str_eq, arith, if◌then◌else◌,
}
use video_captioner_z.Execution.{ScheduledTask, batch_ids, split_cancelled}

-- the ids of a queue but one
abbrev pub without : String → List String → List String
without id [] = []
without id (x ∷ xs) = if str_eq x id then without id xs else x ∷ without id xs

pub contains-without :
    (id x : String) (xs : List String) → contains xs x ≡ false → contains (without id xs) x ≡ false
contains-without id x [] h = refl
contains-without id x (y ∷ ys) h = ground (arith, contains-without id x ys)

pub distinct-without :
    (id : String) (xs : List String) → distinct xs ≡ true → distinct (without id xs) ≡ true
distinct-without id [] h = refl
distinct-without id (x ∷ xs) h = ground (arith, contains-without id x xs, distinct-without id xs)

-- What the loop returns: the waiting tasks of other batches, and whether there was one of this.
pub record Cancels (id : String) (queue : List ScheduledTask) (result : List ScheduledTask × Bool)
    : Type 0 where
  pub left : batch_ids result.0 ≡ without id (batch_ids queue)
  pub found : result.1 ≡ contains (batch_ids queue) id
  pub fresh : All (λ q. q.has_future ≡ false) result.0

module _ (cancel_future : ScheduledTask → Bool) (id : String) where
  round-Cancels :
      (t : ScheduledTask) (queue : List ScheduledTask) (rest : List ScheduledTask × Bool)
      (same : Bool) (future : Bool)
      → str_eq t.batch_id id ≡ same
      → t.has_future ≡ false
      → future ≡ false
      → Cancels id queue rest
      → Cancels id (t ∷ queue) (
          if not same
          then (t ∷ rest.0, rest.1)
          else (if future && not (cancel_future t) then (t ∷ rest.0, rest.1) else (rest.0, true)))
  round-Cancels t queue rest same true e n f r = absurd (cc)
  round-Cancels t queue rest true false e n f r = record {
    left =
        r.left
        ∙ sym (
            ap
              (λ b.
                if b
                then without id (batch_ids queue)
                else t.batch_id ∷ without id (batch_ids queue))
              e);
    found = sym (ap (λ b. b || contains (batch_ids queue) id) e);
    fresh = r.fresh;
  }
  round-Cancels t queue rest false false e n f r = record {
    left =
        ap (λ xs. t.batch_id ∷ xs) r.left
        ∙ sym (
            ap
              (λ b.
                if b
                then without id (batch_ids queue)
                else t.batch_id ∷ without id (batch_ids queue))
              e);
    found = r.found ∙ sym (ap (λ b. b || contains (batch_ids queue) id) e);
    fresh = (n, r.fresh);
  }

  pub split_cancelled-Cancels :
      (queue : List ScheduledTask)
      → All (λ q. q.has_future ≡ false) queue
      → Cancels id queue (split_cancelled cancel_future id queue)
  unfolding split_cancelled
  split_cancelled-Cancels [] f = record { left = refl; found = refl; fresh = tt }
  split_cancelled-Cancels (t ∷ queue) f =
      round-Cancels t queue (split_cancelled cancel_future id queue) (str_eq t.batch_id id)
        t.has_future refl f.0 f.0 (split_cancelled-Cancels queue f.1)
