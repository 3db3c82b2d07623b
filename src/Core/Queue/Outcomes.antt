-- ===== src/Core/Queue/Outcomes.antt =====
-- `JobQueue.enqueue` on every branch: the decision, what waits afterwards, and what is counted.
use rubica_bot.Prelude.{
  ℕ, ◌-◌, ◌≤◌, ◌≡◌, ◌≢◌, refl, ◌∙◌, ap, Bool, true, false, Option, some, List, [], ◌∷◌, ◌++◌, leb,
  str_eq, arith, Bool-cases, inl, inr,
}
use rubica_bot.Result.{ok, Returns, Returns-bind, of_Returns}
use rubica_bot.Utils.Dedup.{seen, seen_key}
use rubica_bot.Utils.Dedup.Refinement.{Distinct, seen_again}
use rubica_bot.Utils.Stats.{record_dedup}
use rubica_bot.Core.Queue.{
  Job, JobQueue, high, normal, QueueDecision, enqueued, duplicate, dropped, put, finish, take_done,
  drop_oldest, put_job, accept, admit, enqueue, with_stats, count_dropped, seen_as, pop_front,
}
use rubica_bot.Core.Queue.Invariant.{IsValid}

-- The two lanes, without the bookkeeping.
pub record Lanes : Type 0 where
  pub high_lane : List (Option Job)
  pub normal_lane : List (Option Job)

abbrev pub lanes : JobQueue → Lanes
lanes q = record { high_lane = q.high_queue.items; normal_lane = q.normal_queue.items }

abbrev pub add : Job → Lanes → Lanes
add job l = elim job.priority [
  | high ↦ record l { high_lane = l.high_lane ++ some job ∷ [] }
  | normal ↦ record l { normal_lane = l.normal_lane ++ some job ∷ [] }
]

-- The oldest normal item, or else the oldest of the high lane.
abbrev pub without_oldest : Lanes → Lanes
without_oldest l = elim l.normal_lane [
  | [] ↦ record l { high_lane = pop_front l.high_lane }
  | x ∷ xs ↦ record l { normal_lane = xs }
]

-- What `enqueue` should do, given whether the key was seen, whether the queue is full, and the policy.
unfoldable pub ideal_enqueue : Job → Bool → Bool → Bool → Lanes → QueueDecision × Lanes
ideal_enqueue job true full drop_old l = (duplicate, l)
ideal_enqueue job false false drop_old l = (enqueued, add job l)
ideal_enqueue job false true true l = (enqueued, add job (without_oldest l))
ideal_enqueue job false true false l = (dropped, l)

abbrev pub was_seen : Job → ℕ → JobQueue → Bool
was_seen job now q = (seen (some (seen_as job)) now q.deduplicator).0

lanes-accept : (job : Job) (wall : ℕ) (q : JobQueue) → lanes (accept job wall q) ≡ add job (lanes q)
unfolding accept put_job put
lanes-accept job wall q = ground arith

lanes-drop_oldest :
    (q : JobQueue) → IsValid q → Returns (λ q'. lanes q' ≡ without_oldest (lanes q)) (drop_oldest q)
unfolding drop_oldest take_done finish count_dropped
lanes-drop_oldest q v = ground arith

abbrev pub Meets : Job → Bool → JobQueue → QueueDecision × JobQueue → Type 0
Meets job old q r =
    (r.0, lanes r.1)
    ≡ ideal_enqueue job old (leb q.max_size q.size) (str_eq q.full_policy "drop_oldest") (lanes q)

admit-ideal_enqueue :
    (job : Job) (wall : ℕ) (q : JobQueue)
    → IsValid q
    → Returns (Meets job false q) (admit job wall q)
unfolding admit ideal_enqueue
admit-ideal_enqueue job wall q v = elim (Bool-cases (leb q.max_size q.size)) [
  | inl full ↦ elim (Bool-cases (str_eq q.full_policy "drop_oldest")) [
    | inl oldest ↦ rw full (
        rw oldest (
          Returns-bind (λ q'. lanes q' ≡ without_oldest (lanes q)) (Meets job false q)
            (drop_oldest q) (λ q'. ok (enqueued, accept job wall q')) (lanes-drop_oldest q v)
            (λ q' e.
              rw full
                (rw oldest (ap (λ l. (enqueued, l)) (lanes-accept job wall q' ∙ ap (add job) e))))))
    | inr reject ↦ rw full (rw reject (rw full (rw reject refl)))
  ]
  | inr room ↦ rw room (rw room (ap (λ l. (enqueued, l)) (lanes-accept job wall q)))
]

-- On a valid queue `enqueue` returns, and the decision and both lanes are those of the specification:
-- a duplicate or a refused job changes no lane, an accepted one goes to the end of the lane of its
-- priority, and under `drop_oldest` a full queue gives up exactly its oldest normal item, or its oldest
-- high one if no normal item waits.
pub enqueue-ideal_enqueue :
    (job : Job) (now wall : ℕ) (q : JobQueue)
    → IsValid q
    → Returns (Meets job (was_seen job now q) q) (enqueue job now wall q)
unfolding enqueue ideal_enqueue
enqueue-ideal_enqueue job now wall q v = elim (Bool-cases (was_seen job now q)) [
  | inl old ↦ rw old refl
  | inr new ↦ rw new (
      admit-ideal_enqueue job wall
        (record q { deduplicator = (seen (some (seen_as job)) now q.deduplicator).1 })
        (ground arith))
]

deduplicator-admit :
    (job : Job) (wall : ℕ) (q : JobQueue)
    → IsValid q
    → Returns (λ r. r.1.deduplicator ≡ q.deduplicator) (admit job wall q)
unfolding admit accept put_job drop_oldest take_done finish count_dropped
deduplicator-admit job wall q v = ground arith

-- Once `enqueue` has presented a job's key, the key's record stays: a second call is answered by it.
enqueue_recorded :
    (job : Job) (now wall : ℕ) (q q' : JobQueue) (decision : QueueDecision)
    → IsValid q
    → decision ≢ duplicate
    → enqueue job now wall q ≡ ok (decision, q')
    → ((seen_key (seen_as job) now q.deduplicator).0 ≡ false)
      × (q'.deduplicator ≡ (seen_key (seen_as job) now q.deduplicator).1)
unfolding enqueue seen
enqueue_recorded job now wall q q' decision v new e =
    let d = (seen_key (seen_as job) now q.deduplicator).1 in
    elim (Bool-cases (seen_key (seen_as job) now q.deduplicator).0) [
      | inl old ↦ absurd (new (ground (arith, e, old)))
      | inr first ↦ (
        first,
        of_Returns (λ (r : QueueDecision × JobQueue). r.1.deduplicator ≡ d)
            (admit job wall (record q { deduplicator = d })) (decision, q')
            (deduplicator-admit job wall (record q { deduplicator = d }) (ground arith))
            (ground (arith, e, first)),
      )
    ]

-- Every decision but `duplicate` records the key, so whatever `enqueue` decided about a job, for
-- `ttl_seconds` from then on a job with its key is a duplicate: a job that was refused because the
-- queue was full is answered as a duplicate when it is sent again, and is in no lane.
pub retry_is_duplicate :
    (job again' : Job) (now wall later wall' : ℕ) (q q' : JobQueue) (decision : QueueDecision)
    → IsValid q
    → seen_as again' ≡ seen_as job
    → Distinct q.deduplicator.cache
    → later - now ≤ q.deduplicator.ttl_seconds
    → decision ≢ duplicate
    → enqueue job now wall q ≡ ok (decision, q')
    → (q'' : JobQueue) × (enqueue again' later wall' q' ≡ ok (duplicate, q''))
      × (lanes q'' ≡ lanes q')
unfolding enqueue seen record_dedup
retry_is_duplicate job again' now wall later wall' q q' decision v same_key u fresh new e =
    let key = seen_as job in
    let (first, same) = enqueue_recorded job now wall q q' decision v new e in
    let again : (seen_key key later q'.deduplicator).0 ≡ true =
      ap (λ d. (seen_key key later d).0) same
      ∙ seen_again key now later q.deduplicator u first
      ∙ ground arith in
    (
      with_stats record_dedup (record q' { deduplicator = (seen_key key later q'.deduplicator).1 }),
      rw same_key (rw again refl),
      refl,
    )
