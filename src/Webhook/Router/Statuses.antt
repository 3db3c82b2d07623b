-- ===== src/Webhook/Router/Statuses.antt =====
-- The statuses of the webhook's answers, and what a refused request leaves unchanged.
use rubica_bot.Prelude.{
  ℕ, ◌≡◌, ◌≢◌, refl, ap, ◌∙◌, String, Bool, true, false, not, ◌&&◌, ◌||◌, ◌==◌, leb, str_eq, zero,
  suc, Option, if◌then◌else◌, arith,
}
use rubica_bot.Result.{Result, ok, raise, index_error, Returns}
use rubica_bot.Json.{Value, str}
use rubica_bot.Prelude.Text.{lstrip, split, ◌<+>◌}
use rubica_bot.Utils.RateLimiter.{RateLimiter, allow}
use rubica_bot.Utils.Security.{verify_signature, missing}
use rubica_bot.Core.Queue.{Job, JobQueue, QueueDecision, enqueued, duplicate, dropped, enqueue}
use rubica_bot.Core.Queue.Invariant.{IsValid}
use rubica_bot.Core.Queue.Outcomes.{Lanes, ideal_enqueue, was_seen, Meets, enqueue-ideal_enqueue}
use rubica_bot.Webhook.Router.{
  Outside, Request, Webhook, Loaded, parsed, invalid_json, other_error, build_job, status_of,
  answer_queued, queue_job, receive_loaded, receive_limited, receive_signed, handle_request,
  priority_of, first,
}

module _ (o : Outside) (secret : Option String) (uuid : String) (now wall : ℕ) (request : Request)
    (w : Webhook) where
  -- The limiter has let the request through.
  abbrev pub limited : Webhook
  limited = record w { rate_limiter = (allow now w.rate_limiter).1 }

  pub let_through :
      verify_signature o.hexdigest request.raw_body request.signature secret ≡ ok true
      → (allow now w.rate_limiter).0 ≡ true
      → handle_request o secret uuid now wall request w
        ≡ receive_loaded o uuid now wall limited (o.loads request.raw_body)
  unfolding handle_request
  let_through e l = rw e (ap (receive_limited o uuid now wall request w) (eta l))
    where
      eta :
          (allow now w.rate_limiter).0 ≡ true
          → allow now w.rate_limiter ≡ (true, (allow now w.rate_limiter).1)
      eta l = ap (λ b. (b, (allow now w.rate_limiter).1)) l

  -- The statuses of a request that makes no job.
  abbrev pub is_refusal : ℕ → Bool
  is_refusal status = status == 401 || status == 429 || status == 400

  -- What a status says of the state that a request leaves.
  abbrev Left : ℕ → Result ℕ × Webhook → Type 0
  Left status out =
      (out.1.queue ≡ w.queue)
      × (out.1.rate_limiter
          ≡ (if status == 401 then w.rate_limiter else (allow now w.rate_limiter).1))

  -- An answer of the queue is no refusal.
  queued-Granted :
      (w' : Webhook) (r : Result (QueueDecision × JobQueue)) (status : ℕ)
      → (answer_queued o w' r).0 ≡ ok status
      → is_refusal status ≡ false
  queued-Granted w' (ok (enqueued, q)) status e = ground (arith, e)
  queued-Granted w' (ok (duplicate, q)) status e = ground (arith, e)
  queued-Granted w' (ok (dropped, q)) status e = ground (arith, e)
  queued-Granted w' (raise x) status e = ground (arith, e)

  loaded-Left :
      (r : RateLimiter) (l : Loaded) (status : ℕ)
      → r ≡ (allow now w.rate_limiter).1
      → (receive_loaded o uuid now wall (record w { rate_limiter = r }) l).0 ≡ ok status
      → is_refusal status ≡ true
      → Left status (receive_loaded o uuid now wall (record w { rate_limiter = r }) l)
  loaded-Left r (parsed payload) status same e h = built (build_job o uuid payload wall) e
    where
      built :
          (x : Result Job)
          → (queue_job o now wall (record w { rate_limiter = r }) x).0 ≡ ok status
          → Left status (queue_job o now wall (record w { rate_limiter = r }) x)
      built (ok job) e = absurd (
          ground (
            arith,
            h,
            queued-Granted (record w { rate_limiter = r }) (enqueue job now wall w.queue) status e,
          ))
      built (raise x) e = ground (arith, e)
  loaded-Left r invalid_json status same e h = ground (arith, e, same)
  loaded-Left r other_error status same e h = ground (arith, e)

  allowed-Left :
      (a : Bool × RateLimiter) (status : ℕ)
      → a ≡ allow now w.rate_limiter
      → (receive_limited o uuid now wall request w a).0 ≡ ok status
      → is_refusal status ≡ true
      → Left status (receive_limited o uuid now wall request w a)
  allowed-Left (true, r) status same e h =
      loaded-Left r (o.loads request.raw_body) status (ap (λ x. x.1) same) e h
  allowed-Left (false, r) status same e h = ground (arith, e, same)

  -- A request that is answered with 401, 429 or 400 leaves the queue as it was, and the limiter too
  -- if the answer is 401; with the others the limiter is the one that was asked, once.
  pub handle_request_refused :
      (status : ℕ)
      → (handle_request o secret uuid now wall request w).0 ≡ ok status
      → is_refusal status ≡ true
      → ((handle_request o secret uuid now wall request w).1.queue ≡ w.queue)
        × ((handle_request o secret uuid now wall request w).1.rate_limiter
            ≡ (if status == 401 then w.rate_limiter else (allow now w.rate_limiter).1))
  unfolding handle_request
  handle_request_refused status e h =
      verified (verify_signature o.hexdigest request.raw_body request.signature secret) e
    where
      verified :
          (r : Result Bool)
          → (receive_signed o uuid now wall request w r).0 ≡ ok status
          → Left status (receive_signed o uuid now wall request w r)
      verified (ok true) e = allowed-Left (allow now w.rate_limiter) status refl e h
      verified (ok false) e = ground (arith, e)
      verified (raise x) e = ground (arith, e)

  abbrev pub refuses : Job → JobQueue → Bool
  refuses job q =
      not (was_seen job now q) && leb q.max_size q.size && not (str_eq q.full_policy "drop_oldest")

  ideal_status :
      (job : Job) (seen full drop_old : Bool) (l : Lanes)
      → status_of o (ideal_enqueue job seen full drop_old l).0
        ≡ (if not seen && full && not drop_old then 503 else 200)
  unfolding ideal_enqueue
  ideal_status job true full drop_old l = refl
  ideal_status job false false drop_old l = refl
  ideal_status job false true true l = refl
  ideal_status job false true false l = refl

  -- A request that makes a job is always answered: with 503 if the queue is full, does not drop old
  -- jobs and has not seen the job, and with 200 otherwise.
  pub handle_request_queued :
      (payload : Value) (job : Job)
      → verify_signature o.hexdigest request.raw_body request.signature secret ≡ ok true
      → (allow now w.rate_limiter).0 ≡ true
      → o.loads request.raw_body ≡ parsed payload
      → build_job o uuid payload wall ≡ ok job
      → IsValid w.queue
      → (handle_request o secret uuid now wall request w).0
        ≡ ok (if refuses job w.queue then 503 else 200)
  handle_request_queued payload job e l j b v =
      ap (λ r. r.0)
        (let_through e l
          ∙ ap (receive_loaded o uuid now wall limited) j
          ∙ ap (queue_job o now wall limited) b)
      ∙ answered (enqueue job now wall w.queue) (enqueue-ideal_enqueue job now wall w.queue v)
    where
      answered :
          (r : Result (QueueDecision × JobQueue))
          → Returns (Meets job (was_seen job now w.queue) w.queue) r
          → (answer_queued o limited r).0 ≡ ok (if refuses job w.queue then 503 else 200)
      answered (ok (d, q)) m =
          ap (λ (x : QueueDecision × Lanes). ok (status_of o x.0)) m
          ∙ ap ok (ideal_status job _ _ _ _)
      answered (raise x) m = absurd m

  -- A request without a signature is not refused as forged, whether or not a secret is set.
  pub handle_request_unsigned :
      missing request.signature ≡ true
      → (handle_request o secret uuid now wall request w).0 ≢ ok 401
  unfolding handle_request verify_signature
  handle_request_unsigned h = rw h (passed (allow now w.rate_limiter))
    where
      queued :
          (w : Webhook) (r : Result (QueueDecision × JobQueue)) → (answer_queued o w r).0 ≢ ok 401
      queued w (ok (enqueued, q)) = λ e. ground (arith, e)
      queued w (ok (duplicate, q)) = λ e. ground (arith, e)
      queued w (ok (dropped, q)) = λ e. ground (arith, e)
      queued w (raise x) = λ e. ground (arith, e)

      built : (w : Webhook) (r : Result Job) → (queue_job o now wall w r).0 ≢ ok 401
      built w (ok job) = queued w (enqueue job now wall w.queue)
      built w (raise x) = λ e. ground (arith, e)

      loaded : (w : Webhook) (l : Loaded) → (receive_loaded o uuid now wall w l).0 ≢ ok 401
      loaded w (parsed payload) = built w (build_job o uuid payload wall)
      loaded w invalid_json = λ e. ground (arith, e)
      loaded w other_error = λ e. ground (arith, e)

      passed : (a : Bool × RateLimiter) → (receive_limited o uuid now wall request w a).0 ≢ ok 401
      passed (true, r) = loaded _ (o.loads request.raw_body)
      passed (false, r) = λ e. ground (arith, e)

-- The priority of a text of slashes alone cannot be told: taking the first word raises.
abbrev pub slashes : ℕ → String
slashes zero = "/"
slashes (suc n) = "/" <+> slashes n

stripped : (n : ℕ) → lstrip b'/' (slashes n) ≡ ""
unfolding lstrip
stripped zero = refl
stripped (suc n) = stripped n

pub priority_of-slashes : (n : ℕ) → priority_of (str (slashes n)) ≡ raise index_error
unfolding priority_of first split
priority_of-slashes zero = refl
priority_of-slashes (suc n) = rw (stripped n) refl
