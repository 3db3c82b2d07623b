-- ===== src/Services/Dispatcher/Handed.antt =====
-- The order in which the dispatcher hands on its updates, and its count of unfinished ones.
use rubica_bot.Prelude.{
  ℕ, zero, suc, ◌+◌, ◌≡◌, refl, sym, ap, ◌∙◌, Bool, false, Option, List, [], ◌∷◌, ◌++◌, arith, inl,
  inr,
}
use mathlib.Core.List.{append_assoc}
use rubica_bot.Prelude.Lists.{length, length-append}
use mathlib.Core.Path.{subst}
use rubica_bot.Result.{ok, Returns, Returns-weaken, of_Returns, Result-cases}
use rubica_bot.Utils.Stats.{StatsCollector}
use rubica_bot.Services.Dispatcher.{
  Item, Task, waiting, cancelled, dispatching, Dispatcher, init, start, workers, enqueue, finish,
  cancel, cancel_all, all_cancelled, stop, Step, starts, arrives, takes, finishes, stops,
}

-- The states that the steps reach from one that is new.
pub data Reachable (d : Dispatcher) : Dispatcher → List Item → List Item → Type 0 where
  begin : Reachable d d [] []
  then_step :
      {d' d'' : Dispatcher} {come come' given given' : List Item}
      → Reachable d d' come given
      → Step d' come given d'' come' given'
      → Reachable d d'' come' given'

abbrev holds : Task → ℕ
holds (dispatching item) = 1
holds waiting = 0
holds cancelled = 0

abbrev in_hand : List Task → ℕ
in_hand [] = 0
in_hand (t ∷ ts) = holds t + in_hand ts

abbrev IsBalanced : Dispatcher → Type 0
IsBalanced d = d.unfinished ≡ length d.items + in_hand d.tasks

in_hand-append : (ts us : List Task) → in_hand (ts ++ us) ≡ in_hand ts + in_hand us
in_hand-append [] us = omega arith
in_hand-append (t ∷ ts) us = omega (arith, in_hand-append ts us)

in_hand-workers : (n : ℕ) → in_hand (workers n) ≡ 0
unfolding workers
in_hand-workers zero = refl
in_hand-workers (suc n) = omega (arith, in_hand-workers n)

in_hand-all_cancelled : (ts : List Task) → in_hand (all_cancelled ts) ≡ 0
unfolding all_cancelled
in_hand-all_cancelled [] = refl
in_hand-all_cancelled (t ∷ ts) = omega (arith, in_hand-all_cancelled ts)

finish-items :
    (now elapsed_ms : ℕ) (error : Bool) (d d' : Dispatcher)
    → finish now elapsed_ms error d ≡ ok d'
    → (d'.items ≡ d.items) × d'.unfinished + 1 ≡ d.unfinished
unfolding finish
finish-items now elapsed_ms error d d' e = ground arith

-- One task more in hand than the rest: task_done() counts down.
finish-counts :
    (now elapsed_ms : ℕ) (error : Bool) (d : Dispatcher) (n : ℕ)
    → d.unfinished ≡ n + 1
    → Returns (λ d'. (d'.items ≡ d.items) × d'.unfinished ≡ n) (finish now elapsed_ms error d)
unfolding finish
finish-counts now elapsed_ms error d n e = ground arith

cancel_all-counts :
    (now elapsed_ms : ℕ) (ts : List Task) (d : Dispatcher) (n : ℕ)
    → d.unfinished ≡ n + in_hand ts
    → ((cancel_all now elapsed_ms ts d).items ≡ d.items)
      × (cancel_all now elapsed_ms ts d).unfinished ≡ n
unfolding cancel_all cancel
cancel_all-counts now ms [] d n e = (refl, omega (arith, e))
cancel_all-counts now ms (waiting ∷ ts) d n e = cancel_all-counts now ms ts d n (omega (arith, e))
cancel_all-counts now ms (cancelled ∷ ts) d n e = cancel_all-counts now ms ts d n (omega (arith, e))
cancel_all-counts now ms (dispatching item ∷ ts) d n e =
    let h = finish-counts now ms false d (n + in_hand ts) (omega (arith, e)) in
    elim (Result-cases (finish now ms false d)) [
      | inl (d', r) ↦
          let c = of_Returns _ (finish now ms false d) d' h r in
          let rest = cancel_all-counts now ms ts d' n c.1 in
          rw (r, cancel_all, cancel) (rest.0 ∙ c.0, rest.1)
      | inr (x, r) ↦ absurd (subst (Returns _) r h)
    ]

-- What holds of a state in which `come` has come and `given` has been handed on.
record Tidy (d : Dispatcher) (come given : List Item) : Type 0 where
  in_order : come ≡ given ++ d.items
  balanced : IsBalanced d

Step-Tidy :
    {d d' : Dispatcher} {come come' given given' : List Item}
    → Step d come given d' come' given'
    → Tidy d come given
    → Tidy d' come' given'
unfolding start enqueue stop
Step-Tidy {d} starts t = record {
  in_order = t.in_order;
  balanced = omega (
    arith,
    t.balanced,
    in_hand-append d.tasks (workers d.concurrency),
    in_hand-workers d.concurrency,
  );
}
Step-Tidy {d} {given = given} (arrives now item) t = record {
  in_order = ap (λ is. is ++ item ∷ []) t.in_order ∙ append_assoc given d.items (item ∷ []);
  balanced = omega (arith, t.balanced, length-append {0} d.items (item ∷ []));
}
Step-Tidy {d} {given = given} (takes before after item rest ts is) t = record {
  in_order = t.in_order ∙ ap (λ is. given ++ is) is ∙ sym (append_assoc given (item ∷ []) rest);
  balanced = omega (
    arith,
    t.balanced,
    ap in_hand ts,
    ap length is,
    in_hand-append before (waiting ∷ after),
    in_hand-append before (dispatching item ∷ after),
  );
}
Step-Tidy {d} {given = given} (finishes {d' = d'} before after item now ms error ts r) t =
    let f = finish-items now ms error d d' r in
    record {
      in_order = t.in_order ∙ ap (λ is. given ++ is) (sym f.0);
      balanced = omega (
        arith,
        t.balanced,
        ap in_hand ts,
        ap length f.0,
        f.1,
        in_hand-append before (waiting ∷ after),
        in_hand-append before (dispatching item ∷ after),
      );
    }
Step-Tidy {d} {given = given} (stops now ms) t =
    let c = cancel_all-counts now ms d.tasks d (length d.items) t.balanced in
    record {
      in_order = t.in_order ∙ ap (λ is. given ++ is) (sym c.0);
      balanced = omega (arith, ap length c.0, c.1, in_hand-all_cancelled d.tasks);
    }

Reachable-Tidy :
    {start_state d : Dispatcher} {come given : List Item}
    → Tidy start_state [] []
    → Reachable start_state d come given
    → Tidy d come given
Reachable-Tidy t begin = t
Reachable-Tidy t (then_step r s) = Step-Tidy s (Reachable-Tidy t r)

init-Tidy : (concurrency : ℕ) (stats : Option StatsCollector) → Tidy (init concurrency stats) [] []
unfolding init
init-Tidy concurrency stats = record { in_order = refl; balanced = refl }

module _ (concurrency : ℕ) (stats : Option StatsCollector) (d : Dispatcher) (come given : List Item)
    (r : Reachable (init concurrency stats) d come given) where
  tidy : Tidy d come given
  tidy = Reachable-Tidy (init-Tidy concurrency stats) r

  -- Whatever tasks take turns, are cancelled or are started again, in each state that a new dispatcher
  -- reaches the updates that have come are those handed to the registry, in the order in which they
  -- came, and then those that wait.
  pub handed_in_order : come ≡ given ++ d.items
  handed_in_order = tidy.in_order

  -- In each state that a new dispatcher reaches a task that dispatches an update can close it, with or
  -- without an error, which counts down by one what is unfinished.
  pub finish-Returns :
      (before after : List Task) (item : Item) (now elapsed_ms : ℕ) (error : Bool)
      → d.tasks ≡ before ++ dispatching item ∷ after
      → Returns (λ d'. d'.unfinished + 1 ≡ d.unfinished) (finish now elapsed_ms error d)
  finish-Returns before after item now ms error ts =
      let n = length d.items + (in_hand before + in_hand after) in
      let e : d.unfinished ≡ n + 1 =
        omega
          (arith, tidy.balanced, ap in_hand ts, in_hand-append before (dispatching item ∷ after)) in
      Returns-weaken _ _ (finish now ms error d) (λ d' h. omega (arith, e, h.1))
        (finish-counts now ms error d n e)
