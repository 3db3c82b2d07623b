-- ===== src/Webhook/Router/Retries.antt =====
-- What becomes of an update that was refused because the queue was full and that is sent again.
use rubica_bot.Prelude.{ℕ, ◌-◌, ◌≤◌, ◌≡◌, ap, ◌∙◌, String, true, Option, arith}
use rubica_bot.Result.{ok}
use rubica_bot.Json.{Value}
use rubica_bot.Utils.RateLimiter.{allow}
use rubica_bot.Utils.Security.{verify_signature}
use rubica_bot.Utils.Dedup.Refinement.{Distinct}
use rubica_bot.Core.Queue.{Job, JobQueue, dropped, enqueue, seen_as}
use rubica_bot.Core.Queue.Invariant.{IsValid}
use rubica_bot.Core.Queue.Outcomes.{lanes, retry_is_duplicate}
use rubica_bot.Webhook.Router.{
  Outside, Request, Webhook, parsed, build_job, answer_queued, queue_job, receive_loaded,
  handle_request,
}
use rubica_bot.Webhook.Router.Statuses.{limited, let_through}

module _ (o : Outside) (secret : Option String) (uuid : String) (request : Request)
    (payload : Value) (job : Job)
    (signed : verify_signature o.hexdigest request.raw_body request.signature secret ≡ ok true)
    (loaded : o.loads request.raw_body ≡ parsed payload) where
  to_queue :
      (now wall : ℕ) (w : Webhook) (job : Job)
      → (allow now w.rate_limiter).0 ≡ true
      → build_job o uuid payload wall ≡ ok job
      → handle_request o secret uuid now wall request w
        ≡ answer_queued o (limited o secret uuid now wall request w) (enqueue job now wall w.queue)
  to_queue now wall w job l b =
      let_through o secret uuid now wall request w signed l
      ∙ ap (receive_loaded o uuid now wall (limited o secret uuid now wall request w)) loaded
      ∙ ap (queue_job o now wall (limited o secret uuid now wall request w)) b

-- An update that a valid queue dropped (503) and that is sent again within `ttl_seconds`, by when
-- the limiter lets it through, is answered with 200, and no job for it is put into the queue, if
-- the job has the same key both times: the ids that the update names, and not a `uuid4` of its own.
pub handle_request_retry :
    (o : Outside) (secret : Option String) (uuid uuid' : String) (request : Request)
    (payload : Value) (job job' : Job) (now wall later wall' : ℕ) (w : Webhook) (q : JobQueue)
    → verify_signature o.hexdigest request.raw_body request.signature secret ≡ ok true
    → o.loads request.raw_body ≡ parsed payload
    → build_job o uuid payload wall ≡ ok job
    → build_job o uuid' payload wall' ≡ ok job'
    → seen_as job' ≡ seen_as job
    → IsValid w.queue
    → Distinct w.queue.deduplicator.cache
    → later - now ≤ w.queue.deduplicator.ttl_seconds
    → (allow now w.rate_limiter).0 ≡ true
    → enqueue job now wall w.queue ≡ ok (dropped, q)
    → (allow later (allow now w.rate_limiter).1).0 ≡ true
    → ((handle_request o secret uuid now wall request w).0 ≡ ok 503)
      × ((handle_request o secret uuid' later wall' request
            (handle_request o secret uuid now wall request w).1).0
          ≡ ok 200)
      × (lanes
            (handle_request o secret uuid' later wall' request
              (handle_request o secret uuid now wall request w).1).1.queue
          ≡ lanes q)
handle_request_retry o secret uuid uuid' request payload job job' now wall later wall' w q signed
      loaded b b' same v u fresh l e l' =
    let w' = record w { rate_limiter = (allow now w.rate_limiter).1; queue = q } in
    let first : handle_request o secret uuid now wall request w ≡ (ok 503, w') =
      to_queue o secret uuid request payload job signed loaded now wall w job l b
      ∙ ap (answer_queued o (limited o secret uuid now wall request w)) e in
    let (q', again, kept) =
      retry_is_duplicate job job' now wall later wall' w.queue q dropped v same u fresh
        (λ x. ground (arith, x)) e in
    let second : handle_request o secret uuid' later wall' request w'
        ≡ (ok 200, record w' { rate_limiter = (allow later w'.rate_limiter).1; queue = q' }) =
      to_queue o secret uuid' request payload job signed loaded later wall' w' job' l' b'
      ∙ ap (answer_queued o (limited o secret uuid' later wall' request w')) again in
    (
      ap (λ r. r.0) first,
      ap (λ r. (handle_request o secret uuid' later wall' request r.1).0) first
          ∙ ap (λ r. r.0) second,
      ap (λ r. lanes (handle_request o secret uuid' later wall' request r.1).1.queue) first
          ∙ ap (λ r. lanes r.1.queue) second
          ∙ kept,
    )
