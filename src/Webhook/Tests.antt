-- ===== src/Webhook/Tests.antt =====
-- The theorems about the webhook at concrete inputs.
use rubica_bot.Prelude.{ℕ, String, ◌≡◌, ◌≢◌, refl, true, none, some, [], ◌∷◌, arith}
use rubica_bot.Prelude.Lists.{any}
use rubica_bot.Prelude.Text.{split, lstrip, lower, contains, join}
use rubica_bot.Result.{ok}
use rubica_bot.Json.{Value, obj, str, null, fields, get, find, show}
use rubica_bot.Utils.RateLimiter.{allow, popleft_stale}
use rubica_bot.Utils.Dedup.{seen, seen_key}
use rubica_bot.Utils.Security.{verify_signature, compare_digest}
use rubica_bot.Utils.Message.{extract_message, get_chat_id, get_message_id, get_sender_id, get_text}
use rubica_bot.Core.Queue.{Job, JobPriority, JobQueue, dropped, enqueue, admit, empty_queue}
use rubica_bot.Core.Queue.Outcomes.{lanes}
use rubica_bot.Webhook.Router.{
  Outside, Request, Webhook, parsed, handle_request, build_job, dedup_key_of, texts_of,
  truthy_values, priority_of, priority_of_text, text_priority, first, job_id_of,
}
use rubica_bot.Webhook.Router.Statuses
use rubica_bot.Webhook.Router.Statuses.{limited, slashes}
use rubica_bot.Webhook.Router.Retries

abbrev payload : Value
payload = obj (
    fields (
      (
        "message",
        obj (fields (("chat_id", str "c") ∷ ("message_id", str "m") ∷ ("text", str "hi") ∷ [])),
      )
      ∷ ("type", str "new")
      ∷ []))

abbrev outside : Outside
outside = record { hexdigest = λ secret body. "d"; loads = λ body. parsed payload; repr = λ v. "" }

abbrev request : Request
request = record { raw_body = ""; signature = some "d" }

abbrev unsigned : Request
unsigned = record { raw_body = ""; signature = none }

-- The job that the payload makes.
abbrev job : ℕ → Job
job wall = record {
  job_id = "m";
  received_at = wall;
  chat_id = str "c";
  message_id = str "m";
  sender_id = null;
  update_type = str "new";
  text = str "hi";
  raw_payload = payload;
  dedup_key = some "c:m:new";
  priority = JobPriority.normal;
}

-- One job waits.
abbrev webhook : ℕ → Webhook
webhook max_size = record {
  rate_limiter = record { max_requests = 5; window_seconds = 60; events = [] };
  queue = record {
    high_queue = empty_queue;
    normal_queue = record { items = some (job 3) ∷ []; unfinished = 1 };
    size = 1;
    max_size = max_size;
    deduplicator = record { ttl_seconds = 120; cache = [] };
    full_policy = "reject";
    stats = none;
  };
}

build_job_lem : (uuid : String) (wall : ℕ) → build_job outside uuid payload wall ≡ ok (job wall)
unfolding build_job extract_message get find get_chat_id get_message_id get_sender_id get_text
    dedup_key_of texts_of truthy_values join priority_of priority_of_text text_priority first split
    lstrip lower any contains job_id_of show
build_job_lem uuid wall = refl

verified : verify_signature outside.hexdigest "" (some "d") (some "s") ≡ ok true
unfolding verify_signature compare_digest
verified = refl

allowed : (n : ℕ) → (allow 7 (webhook n).rate_limiter).0 ≡ true
unfolding allow popleft_stale
allowed n = refl

-- Five requests have been let through in the last minute.
abbrev busy_webhook : Webhook
busy_webhook = record (webhook 4) {
  rate_limiter = record { max_requests = 5; window_seconds = 60; events = 1 ∷ 2 ∷ 3 ∷ 4 ∷ 5 ∷ [] };
}

refused : (handle_request outside (some "s") "u" 7 9 request busy_webhook).0 ≡ ok 429
unfolding handle_request verify_signature compare_digest allow popleft_stale
refused = refl

handle_request_refused_example :
    ((handle_request outside (some "s") "u" 7 9 request busy_webhook).1.queue ≡ (webhook 4).queue)
    × ((handle_request outside (some "s") "u" 7 9 request busy_webhook).1.rate_limiter
        ≡ (allow 7 busy_webhook.rate_limiter).1)
handle_request_refused_example =
    Statuses.handle_request_refused outside (some "s") "u" 7 9 request busy_webhook 429 refused refl

handle_request_queued_example :
    (handle_request outside (some "s") "u" 7 9 request (webhook 1)).0 ≡ ok 503
unfolding seen seen_key
handle_request_queued_example =
    Statuses.handle_request_queued outside (some "s") "u" 7 9 request (webhook 1) payload (job 9)
      verified (allowed 1) refl (build_job_lem "u" 9) (omega arith)

handle_request_unsigned_example :
    (handle_request outside (some "s") "u" 7 9 unsigned (webhook 4)).0 ≢ ok 401
handle_request_unsigned_example =
    Statuses.handle_request_unsigned outside (some "s") "u" 7 9 unsigned (webhook 4) refl

abbrev after_drop : JobQueue
after_drop = record (webhook 1).queue {
  deduplicator = record { ttl_seconds = 120; cache = ("c:m:new", 7) ∷ [] };
}

drops : enqueue (job 9) 7 9 (webhook 1).queue ≡ ok (dropped, after_drop)
unfolding enqueue admit seen seen_key
drops = refl

allowed_again : (allow 8 (allow 7 (webhook 1).rate_limiter).1).0 ≡ true
unfolding allow popleft_stale
allowed_again = refl

handle_request_retry_example :
    ((handle_request outside (some "s") "u" 7 9 request (webhook 1)).0 ≡ ok 503)
    × ((handle_request outside
          (some "s")
          "v"
          8
          10
          request
          (handle_request outside (some "s") "u" 7 9 request (webhook 1)).1).0
        ≡ ok 200)
    × (lanes
          (handle_request outside
            (some "s")
            "v"
            8
            10
            request
            (handle_request outside (some "s") "u" 7 9 request (webhook 1)).1).1.queue
        ≡ lanes after_drop)
handle_request_retry_example =
    Retries.handle_request_retry outside (some "s") "u" "v" request payload (job 9) (job 10) 7 9 8
      10 (webhook 1) after_drop verified refl (build_job_lem "u" 9) (build_job_lem "v" 10) refl
      (omega arith) tt (omega arith) (allowed 1) drops allowed_again
