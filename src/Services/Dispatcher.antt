-- ===== src/Services/Dispatcher.antt =====
-- app/services/dispatcher.py: `Dispatcher`, a queue of updates of its own with its workers, which
-- are interleaved by a step relation. What `registry.dispatch` makes of an update is only whether
-- it raised. A task that is cancelled in the middle of a dispatch still runs `finally`.
pub mod Handed
use rubica_bot.Prelude.{
  ℕ, zero, suc, ◌+◌, ◌-◌, ◌≡◌, Bool, true, false, Option, none, some, List, [], ◌∷◌, ◌++◌, ◌==◌,
  if◌then◌else◌,
}
use rubica_bot.Prelude.Lists.{length}
use rubica_bot.Result.{Result, ok, raise, value_error}
use rubica_bot.Json.{Value}
use rubica_bot.Utils.Stats.{StatsCollector, record_enqueue, record_dispatch}

-- {"update": update, "context": context}
abbrev pub Item : Type 0
Item = Value × Value

pub data Task : Type 0 where
  waiting cancelled : Task
  dispatching : Item → Task

pub record Dispatcher : Type 0 where
  pub items : List Item
  pub unfinished : ℕ
  pub concurrency : ℕ
  pub tasks : List Task
  pub stats : Option StatsCollector

unfoldable pub init : ℕ → Option StatsCollector → Dispatcher
init concurrency stats = record {
  items = [];
  unfinished = 0;
  concurrency = concurrency;
  tasks = [];
  stats = stats;
}

abbrev pub with_stats : (StatsCollector → StatsCollector) → Dispatcher → Dispatcher
with_stats f d = record d { stats = elim d.stats [ none ↦ none | some s ↦ some (f s) ] }

unfoldable pub workers : ℕ → List Task
workers zero = []
workers (suc n) = waiting ∷ workers n

unfoldable pub start : Dispatcher → Dispatcher
unfolding workers
start d = record d { tasks = d.tasks ++ workers d.concurrency }

unfoldable pub enqueue : ℕ → Item → Dispatcher → Dispatcher
unfolding record_enqueue
enqueue now item d =
    let d' = record d { items = d.items ++ item ∷ []; unfinished = d.unfinished + 1 } in
    with_stats (record_enqueue now (length d'.items)) d'

-- `finally`: the statistics, and task_done()
unfoldable pub finish : ℕ → ℕ → Bool → Dispatcher → Result Dispatcher
unfolding record_dispatch
finish now elapsed_ms error d =
    let d' = with_stats (record_dispatch now elapsed_ms error) d in
    if d'.unfinished == 0
    then raise value_error
    else ok (record d' { unfinished = d'.unfinished - 1 })

-- A task that is cancelled: one that dispatches an update runs `finally` without an error.
unfoldable pub cancel : ℕ → ℕ → Task → Dispatcher → Result Dispatcher
unfolding finish
cancel now elapsed_ms (dispatching item) d = finish now elapsed_ms false d
cancel now elapsed_ms waiting d = ok d
cancel now elapsed_ms cancelled d = ok d

-- `stop`: every task is cancelled and waited for; what a task raises is no matter.
unfoldable pub cancel_all : ℕ → ℕ → List Task → Dispatcher → Dispatcher
unfolding cancel
cancel_all now elapsed_ms [] d = d
cancel_all now elapsed_ms (t ∷ ts) d =
    cancel_all now elapsed_ms ts (elim (cancel now elapsed_ms t d) [ ok d' ↦ d' | raise e ↦ d ])

unfoldable pub all_cancelled : List Task → List Task
all_cancelled [] = []
all_cancelled (t ∷ ts) = cancelled ∷ all_cancelled ts

unfoldable pub stop : ℕ → ℕ → Dispatcher → Dispatcher
unfolding cancel_all all_cancelled
stop now elapsed_ms d = record (cancel_all now elapsed_ms d.tasks d) {
  tasks = all_cancelled d.tasks;
}

-- A step of the program. The lists hold the items that have come and those that have been handed to the
-- registry, oldest first.
pub data Step (d : Dispatcher) (come given : List Item)
    : Dispatcher → List Item → List Item → Type 0 where
  starts : Step d come given (start d) come given
  arrives :
      (now : ℕ) (item : Item) → Step d come given (enqueue now item d) (come ++ item ∷ []) given
  -- await self.queue.get()
  takes :
      (before after : List Task) (item : Item) (rest : List Item)
      → d.tasks ≡ before ++ waiting ∷ after
      → d.items ≡ item ∷ rest
      → Step d come given
          (record d { items = rest; tasks = before ++ dispatching item ∷ after })
          come
          (given ++ item ∷ [])
  finishes :
      {d' : Dispatcher} (before after : List Task) (item : Item) (now elapsed_ms : ℕ) (error : Bool)
      → d.tasks ≡ before ++ dispatching item ∷ after
      → finish now elapsed_ms error d ≡ ok d'
      → Step d come given (record d' { tasks = before ++ waiting ∷ after }) come given
  stops : (now elapsed_ms : ℕ) → Step d come given (stop now elapsed_ms d) come given
