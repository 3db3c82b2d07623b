-- ===== src/Core/Worker/Shutdown.antt =====
-- `WorkerPool.stop`: the sentinels go to the high queue.
use rubica_bot.Prelude.{suc, ◌≡◌, refl, ap, ◌∙◌, sym, Option, none, List, [], ◌∷◌, ◌++◌}
use mathlib.Core.List.{append_assoc, append-nil}
use rubica_bot.Prelude.Lists.{length}
use rubica_bot.Core.Queue.{Job, JobQueue, put, put_raw}
use rubica_bot.Core.Queue.Order.{serve, waiting, serve-append}
use rubica_bot.Core.Worker.{Worker, WorkerPool, put_sentinels, stop}

-- One `None` for each worker.
abbrev pub sentinels : List Worker → List (Option Job)
sentinels [] = []
sentinels (w ∷ ws) = none ∷ sentinels ws

high-put_sentinels :
    (ws : List Worker) (q : JobQueue)
    → (put_sentinels ws q).high_queue.items ≡ q.high_queue.items ++ sentinels ws
unfolding put_sentinels put_raw put
high-put_sentinels [] q = sym (append-nil _)
high-put_sentinels (w ∷ ws) q =
    high-put_sentinels ws (put_raw none q)
    ∙ append_assoc q.high_queue.items (none ∷ []) (sentinels ws)

normal-put_sentinels :
    (ws : List Worker) (q : JobQueue) → (put_sentinels ws q).normal_queue ≡ q.normal_queue
unfolding put_sentinels put_raw put
normal-put_sentinels [] q = refl
normal-put_sentinels (w ∷ ws) q = normal-put_sentinels ws (put_raw none q)

-- After `stop` the queue serves the jobs of high priority, then one sentinel for each worker, and only
-- then the jobs of normal priority: every worker can end while normal jobs still wait.
pub waiting-stop :
    (p : WorkerPool)
    → waiting (stop p).queue
      ≡ p.queue.high_queue.items ++ (sentinels p.workers ++ p.queue.normal_queue.items)
unfolding waiting stop
waiting-stop p =
    rw (high-put_sentinels p.workers p.queue, normal-put_sentinels p.workers p.queue)
      (append_assoc p.queue.high_queue.items (sentinels p.workers) p.queue.normal_queue.items)

length-sentinels : (ws : List Worker) → length (sentinels ws) ≡ length ws
length-sentinels [] = refl
length-sentinels (w ∷ ws) = ap suc (length-sentinels ws)

-- With no job of high priority waiting, the calls of `get` by which the workers end return sentinels
-- only: no normal job is served after `stop`, however many wait.
pub serve-stop :
    (p : WorkerPool)
    → p.queue.high_queue.items ≡ []
    → serve (length p.workers) (stop p).queue ≡ sentinels p.workers
serve-stop p e =
    serve-append (length p.workers) (stop p).queue (sentinels p.workers) p.queue.normal_queue.items
      (waiting-stop p ∙ ap (λ l. l ++ (sentinels p.workers ++ p.queue.normal_queue.items)) e)
      (length-sentinels p.workers)
