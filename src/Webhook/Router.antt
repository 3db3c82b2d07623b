-- ===== src/Webhook/Router.antt =====
-- app/webhook/router.py: `handle_request`. The state is the rate limiter and the job queue. What is
-- read from outside is in `Outside`: the HMAC, `json.loads` on the body, and `str` of a list or a
-- dict. What `uuid4()` returns to a request is an argument, `uuid`. An exception that the handler
-- does not catch is answered by the framework (status 500).
pub mod Statuses
pub mod Retries
use rubica_bot.Prelude.{
  ℕ, String, Bool, true, false, not, ◌||◌, Option, none, some, List, [], ◌∷◌, ◌++◌, str_eq,
  if◌then◌else◌,
}
use rubica_bot.Prelude.Lists.{any}
use rubica_bot.Prelude.Text.{is_empty, lstrip, split, lower, contains, join}
use rubica_bot.Result.{Result, ok, raise, attribute_error, type_error, index_error, ◌>>=◌}
use rubica_bot.Json.{Value, obj, str, null, no_fields, truthy, or_else, get, show, as_text}
use rubica_bot.Utils.RateLimiter.{RateLimiter, allow}
use rubica_bot.Utils.Security.{verify_signature}
use rubica_bot.Utils.Message.{extract_message, get_chat_id, get_message_id, get_sender_id, get_text}
use rubica_bot.Core.Queue.{
  Job, JobPriority, JobQueue, QueueDecision, enqueued, duplicate, dropped, enqueue,
}

-- The body as `json.loads(raw_body.decode("utf-8"))` reads it: `other_error` is any exception but a
-- `JSONDecodeError`.
pub data Loaded : Type 0 where
  parsed : Value → Loaded
  invalid_json other_error : Loaded

pub record Outside : Type 0 where
  pub hexdigest : String → String → String
  pub loads : String → Loaded
  pub repr : Value → String

pub record Request : Type 0 where
  pub raw_body : String
  pub signature : Option String

pub record Webhook : Type 0 where
  pub rate_limiter : RateLimiter
  pub queue : JobQueue

abbrev pub admin_commands : List String
admin_commands =
    "ban" ∷ "unban" ∷ "del" ∷ "antilink" ∷ "filter" ∷ "settings" ∷ "admins" ∷ "setcmd" ∷ "panel"
    ∷ []

-- `text.split(maxsplit=1)[0]`
unfoldable pub first : List String → Result String
first [] = raise index_error
first (word ∷ words) = ok word

unfoldable pub text_priority : String → String → JobPriority
unfolding any contains
text_priority text command =
    if any (str_eq command) admin_commands
      || contains text "http"
      || contains text "t.me"
      || contains text "rubika.ir"
    then JobPriority.high
    else JobPriority.normal

unfoldable pub priority_of_text : Value → Result JobPriority
unfolding lstrip split first lower text_priority
priority_of_text (str s) = do
  word ← first (split (lstrip b'/' s))
  ok (text_priority s (lower word))
priority_of_text v = raise attribute_error

unfoldable pub priority_of : Value → Result JobPriority
unfolding priority_of_text
priority_of text = if truthy text then priority_of_text text else ok JobPriority.normal

-- `[value for value in […] if value]`
unfoldable pub truthy_values : List Value → List Value
truthy_values [] = []
truthy_values (v ∷ vs) = if truthy v then v ∷ truthy_values vs else truthy_values vs

-- The items of `":".join(…)` must be texts.
unfoldable pub texts_of : List Value → Result (List String)
unfolding as_text
texts_of [] = ok []
texts_of (v ∷ vs) = do s ← as_text v; l ← texts_of vs; ok (s ∷ l)

-- `":".join(…) or job_id`
unfoldable pub dedup_key_of : List Value → String → Result String
unfolding texts_of truthy_values join
dedup_key_of values job_id = do
  l ← texts_of (truthy_values values)
  ok (if is_empty (join ":" l) then job_id else join ":" l)

module _ (o : Outside) where
  -- `str(update_id) if update_id is not None else str(uuid4())`
  unfoldable pub job_id_of : String → Value → String
  unfolding show
  job_id_of uuid null = uuid
  job_id_of uuid v = show o.repr v

  abbrev pub button_text : Value → Value
  unfolding show
  button_text button_id = if truthy button_id then str (show o.repr button_id) else null

  -- From `message = …` to `Job.build(…)`.
  unfoldable pub build_job : String → Value → ℕ → Result Job
  build_job uuid payload wall = do
    found ← extract_message payload
    let message = or_else found (obj no_fields)
    update_id ← get payload "update_id"
    payload_message_id ← get payload "message_id"
    message_message_id ← get message "message_id"
    let job_id = job_id_of uuid (or_else update_id (or_else payload_message_id message_message_id))
    update_type ← get payload "type"
    chat_id ← get_chat_id message
    message_id ← get_message_id message
    sender_id ← get_sender_id message
    text ← get_text message
    payload_button ← get payload "button_id"
    message_button ← get message "button_id"
    dedup_key ←
        dedup_key_of
          (chat_id
            ∷ message_id
            ∷ update_type
            ∷ button_text (or_else payload_button message_button)
            ∷ [])
          job_id
    priority ← priority_of text
    ok record {
      job_id = job_id;
      received_at = wall;
      chat_id = chat_id;
      message_id = message_id;
      sender_id = sender_id;
      update_type = update_type;
      text = text;
      raw_payload = payload;
      dedup_key = some dedup_key;
      priority = priority;
    }

  abbrev pub status_of : QueueDecision → ℕ
  status_of dropped = 503
  status_of duplicate = 200
  status_of enqueued = 200

  abbrev pub answer_queued : Webhook → Result (QueueDecision × JobQueue) → Result ℕ × Webhook
  answer_queued w (ok (decision, q)) = (ok (status_of decision), record w { queue = q })
  answer_queued w (raise e) = (raise e, w)

  abbrev pub queue_job : ℕ → ℕ → Webhook → Result Job → Result ℕ × Webhook
  queue_job now wall w (ok job) = answer_queued w (enqueue job now wall w.queue)
  queue_job now wall w (raise e) = (raise e, w)

  abbrev pub receive_loaded : String → ℕ → ℕ → Webhook → Loaded → Result ℕ × Webhook
  receive_loaded uuid now wall w (parsed payload) =
      queue_job now wall w (build_job uuid payload wall)
  receive_loaded uuid now wall w invalid_json = (ok 400, w)
  receive_loaded uuid now wall w other_error = (raise attribute_error, w)

  abbrev pub receive_limited :
      String → ℕ → ℕ → Request → Webhook → Bool × RateLimiter → Result ℕ × Webhook
  receive_limited uuid now wall request w (true, r) =
      receive_loaded uuid now wall (record w { rate_limiter = r }) (o.loads request.raw_body)
  receive_limited uuid now wall request w (false, r) = (ok 429, record w { rate_limiter = r })

  abbrev pub receive_signed : String → ℕ → ℕ → Request → Webhook → Result Bool → Result ℕ × Webhook
  receive_signed uuid now wall request w (ok true) =
      receive_limited uuid now wall request w (allow now w.rate_limiter)
  receive_signed uuid now wall request w (ok false) = (ok 401, w)
  receive_signed uuid now wall request w (raise e) = (raise e, w)

  -- The status of the answer, and the state. Both routes are this handler.
  unfoldable pub handle_request :
      Option String → String → ℕ → ℕ → Request → Webhook → Result ℕ × Webhook
  handle_request secret uuid now wall request w =
      receive_signed uuid now wall request w
        (verify_signature o.hexdigest request.raw_body request.signature secret)
