-- ===== src/Core/Tests.antt =====
-- The theorems about the queue and the workers at concrete inputs.
use rubica_bot.Prelude.{
  ◌≤◌, ◌⊎◌, ◌≡◌, refl, String, true, false, none, some, [], ◌∷◌, ◌+◌, ◌==◌, Option, arith,
}
use rubica_bot.Result.{ok, Returns}
use rubica_bot.Json.{null, str}
use rubica_bot.Core.Queue.{
  Job, JobQueue, JobPriority, high, normal, Got, get, catch, resume, take_high, take_normal,
  enqueue, admit, accept, put_job, put, enqueued, is_joined, task_done, finish,
}
use rubica_bot.Core.Queue.Invariant.{IsValid}
use rubica_bot.Core.Queue.Order
use rubica_bot.Core.Queue.Order.{waiting, serve}
use rubica_bot.Core.Queue.Outcomes
use rubica_bot.Core.Queue.Outcomes.{Meets, was_seen, lanes}
use rubica_bot.Core.Worker.{
  Worker, WorkerPool, Hand, idle, busy, awaiting, Reach, here, next, waits, catches, resumes,
  arrives, completes, receive, stop, complete, note_error, lost,
}
use rubica_bot.Core.Worker.Balance
use rubica_bot.Core.Worker.Steps.{Balanced}
use rubica_bot.Core.Worker.Progress
use rubica_bot.Core.Worker.Effort.{Run, rest, more, followed_by, items_left, in_work}
use rubica_bot.Core.Worker.Progress.{any_alive, CanWork}
use rubica_bot.Utils.Dedup.{seen, seen_key, sweep}
use rubica_bot.Core.Worker.Shutdown
use rubica_bot.Core.Worker.Shutdown.{sentinels}

abbrev a_job : JobPriority → String → Job
a_job p id = record {
  job_id = id;
  received_at = 5;
  chat_id = str "c1";
  message_id = str id;
  sender_id = str "u1";
  update_type = null;
  text = str "hi";
  raw_payload = null;
  dedup_key = some id;
  priority = p;
}

abbrev full_queue : JobQueue
full_queue = record {
  high_queue = record { items = some (a_job high "h") ∷ []; unfinished = 2 };
  normal_queue = record { items = some (a_job normal "n") ∷ []; unfinished = 1 };
  size = 2;
  max_size = 2;
  deduplicator = record { ttl_seconds = 120; cache = [] };
  full_policy = "reject";
  stats = none;
}

abbrev oldest_queue : JobQueue
oldest_queue = record full_queue { full_policy = "drop_oldest" }

full_queue-IsValid : IsValid full_queue
full_queue-IsValid = omega arith

oldest_queue-IsValid : IsValid oldest_queue
oldest_queue-IsValid = omega arith

enqueue-ideal_enqueue_example :
    Returns
      (Meets (a_job high "x") (was_seen (a_job high "x") 7 oldest_queue) oldest_queue)
      (enqueue (a_job high "x") 7 9 oldest_queue)
enqueue-ideal_enqueue_example =
    Outcomes.enqueue-ideal_enqueue (a_job high "x") 7 9 oldest_queue oldest_queue-IsValid

serve-waiting_example : serve 2 full_queue ≡ waiting full_queue
unfolding waiting
serve-waiting_example = Order.serve-waiting 2 full_queue refl

abbrev a_worker : Hand → Worker
a_worker hand = record {
  status = record {
    worker_id = 0;
    started_at = 1;
    last_job_at = none;
    last_error_at = none;
    last_error = none;
    processed = 0;
    alive = true;
  };
  hand = hand;
}

-- One job of high priority is in hand, one of each priority waits.
abbrev a_pool : WorkerPool
a_pool = record {
  queue = full_queue;
  workers = a_worker (busy (a_job high "w")) ∷ a_worker idle ∷ [];
}

a_pool-Balanced : Balanced a_pool
a_pool-Balanced = record { books = ground arith; placed = (tt, (tt, tt)) }

complete_returns_example :
    (w' : Worker) × (q : JobQueue) × (complete
        (a_job high "w")
        (some "boom")
        8
        3
        (a_worker (busy (a_job high "w")))
        full_queue
      ≡ ok (w', q))
    × (w'.hand ≡ idle)
complete_returns_example =
    Balance.complete_returns a_pool-Balanced here [] (a_worker idle ∷ [])
      (a_worker (busy (a_job high "w"))) (a_job high "w") (some "boom") 8 3 refl refl

is_joined_iff_example : is_joined full_queue ≡ false
is_joined_iff_example =
    Balance.is_joined_iff {start_pool = a_pool} {p = a_pool} a_pool-Balanced here

abbrev quiet_pool : WorkerPool
quiet_pool = record a_pool {
  queue = record full_queue { high_queue = record { items = []; unfinished = 1 } };
}

serve-stop_example : serve 2 (stop quiet_pool).queue ≡ none ∷ none ∷ []
serve-stop_example = Shutdown.serve-stop quiet_pool refl

-- The busy worker is done.
abbrev done_worker : Worker
done_worker = record {
  status = record {
    worker_id = 0;
    started_at = 1;
    last_job_at = some 8;
    last_error_at = none;
    last_error = none;
    processed = 1;
    alive = true;
  };
  hand = idle;
}

abbrev done_queue : JobQueue
done_queue = record full_queue {
  high_queue = record { items = some (a_job high "h") ∷ []; unfinished = 1 };
}

abbrev done_pool : WorkerPool
done_pool = record { queue = done_queue; workers = done_worker ∷ a_worker idle ∷ [] }

completed :
    complete (a_job high "w") none 8 3 (a_worker (busy (a_job high "w"))) full_queue
    ≡ ok (done_worker, done_queue)
unfolding complete note_error task_done finish
completed = refl

first_step : Run a_pool 1 done_pool
first_step =
    more rest
      (completes [] (a_worker idle ∷ []) (a_worker (busy (a_job high "w"))) done_worker
        (a_job high "w") none 8 3 refl refl completed)
      tt

workers_finish_example :
    (1 ≤ 16)
    × (CanWork done_pool
        ⊎ (any_alive done_pool.workers ≡ false)
        ⊎ ((items_left done_queue ≡ 0)
            × (in_work done_pool.workers ≡ 0)
            × (is_joined done_queue ≡ (
                lost (followed_by here first_step) high + lost (followed_by here first_step) normal
                == 0))))
workers_finish_example = Progress.workers_finish 1 done_pool a_pool-Balanced here first_step

-- A worker waits at an empty queue, and two jobs arrive, one in each queue, before its wait ends.
abbrev empty_pool : WorkerPool
empty_pool = record {
  queue = record full_queue {
    high_queue = record { items = []; unfinished = 0 };
    normal_queue = record { items = []; unfinished = 0 };
    size = 0;
  };
  workers = a_worker idle ∷ [];
}

abbrev hold : Hand → JobQueue → WorkerPool
hold hand q = record { queue = q; workers = a_worker hand ∷ [] }

abbrev both_came : JobQueue
both_came = record full_queue {
  high_queue = record { items = some (a_job high "h") ∷ []; unfinished = 1 };
  normal_queue = record { items = some (a_job normal "n") ∷ []; unfinished = 1 };
  deduplicator = record { ttl_seconds = 120; cache = ("h", 7) ∷ ("n", 8) ∷ [] };
}

two_jobs : Reach empty_pool (hold (awaiting none none) both_came)
unfolding get enqueue admit accept put_job put seen seen_key sweep
two_jobs =
    next
      (next (next here (waits [] [] (a_worker idle) refl refl refl))
        (arrives (a_job high "h") 7 9 enqueued refl))
      (arrives (a_job normal "n") 8 9 enqueued refl)

abbrev one_gone : WorkerPool
one_gone = hold (busy (a_job high "h")) (record both_came {
  high_queue = record { items = []; unfinished = 1 };
  normal_queue = record { items = []; unfinished = 1 };
  size = 1;
})

abbrev high_caught : JobQueue
high_caught = record both_came { high_queue = record { items = []; unfinished = 1 } }

abbrev both_caught : JobQueue
both_caught = record high_caught { normal_queue = record { items = []; unfinished = 1 } }

abbrev h_item : Option (Option Job)
h_item = some (some (a_job high "h"))

abbrev n_item : Option (Option Job)
n_item = some (some (a_job normal "n"))

catch_high : catch high none none both_came ≡ some ((h_item, none), high_caught)
unfolding catch take_high
catch_high = refl

catch_normal : catch normal h_item none high_caught ≡ some ((h_item, n_item), both_caught)
unfolding catch take_normal
catch_normal = refl

abbrev winner : Got
winner = record { job = some (a_job high "h"); last_queue = high; queue = one_gone.queue }

resumed : resume high h_item n_item both_caught ≡ some winner
unfolding resume
resumed = refl

received :
    receive winner (a_worker (awaiting h_item n_item))
    ≡ ok (a_worker (busy (a_job high "h")), one_gone.queue)
unfolding receive
received = refl

-- Both tasks of the wait take an item, and `get` returns the job of high priority.
abbrev gone : Reach empty_pool one_gone
gone =
    next
      (next
        (next two_jobs
          (catches [] [] (a_worker (awaiting none none)) high none none refl refl catch_high))
        (catches [] [] (a_worker (awaiting h_item none)) normal h_item none refl refl catch_normal))
      (resumes [] [] (a_worker (awaiting h_item n_item)) (a_worker (busy (a_job high "h"))) high
        h_item n_item winner refl refl resumed received)

abbrev all_served : WorkerPool
all_served = record {
  queue = record one_gone.queue { high_queue = record { items = []; unfinished = 0 } };
  workers = done_worker ∷ [];
}
