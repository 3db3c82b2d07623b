-- ===== src/Utils/Tests.antt =====
-- The theorems about app/utils at concrete inputs.
use rubica_bot.Prelude.{ℕ, ◌≤◌, ◌≡◌, refl, String, none, some, List, [], ◌∷◌, arith}
use rubica_bot.Prelude.Lists.{length}
use rubica_bot.Prelude.Text.{show_ℕ}
use rubica_bot.Utils.Dedup
use rubica_bot.Utils.Dedup.Refinement
use rubica_bot.Utils.Dedup.Refinement.{run, run_spec}
use rubica_bot.Utils.RateLimiter
use rubica_bot.Utils.RateLimiter.Window
use rubica_bot.Utils.RateLimiter.Window.{passed, within}
use rubica_bot.Utils.Cache
use rubica_bot.Utils.Cache.{LruTtlCache, Entry, get, set}
use rubica_bot.Utils.Cache.Laws
use rubica_bot.Prelude.{Option}
use rubica_bot.Prelude.Lists.{any}
use rubica_bot.Result.{Result, ok, raise, bad_value}
use rubica_bot.Utils.SafeMath
use rubica_bot.Utils.SafeMath.{Node, node, none_left, child, safe_eval}
use rubica_bot.Utils.SafeMath.Refused
use rubica_bot.Utils.SafeMath.Refused.{at_root, under, in_first, in_rest}
use rubica_bot.Prelude.Text.{count}
use rubica_bot.Utils.Formatting.{format_duration}

abbrev some_calls : List (String × ℕ)
some_calls = ("a", 1) ∷ ("b", 2) ∷ ("a", 5) ∷ ("a", 20) ∷ []

run-run_spec_example : run (Dedup.init 10) some_calls ≡ run_spec 10 (λ k. none) some_calls
run-run_spec_example =
    Refinement.run-run_spec 10 0 (Dedup.init 10) (λ k. none) some_calls (unfold Dedup.init in refl)
      (Refinement.init-Agrees 10) (omega arith)

passed_bound_example :
    length (within 60 70 (passed (RateLimiter.init 2 60) (5 ∷ 6 ∷ 7 ∷ 70 ∷ []))) ≤ 2
passed_bound_example = Window.passed_bound 2 60 0 70 (5 ∷ 6 ∷ 7 ∷ 70 ∷ []) (omega arith)

abbrev small : LruTtlCache ℕ
small = record { max_size = 2; ttl_seconds = 90; entries = ("a", (1, 10)) ∷ ("b", (2, 20)) ∷ [] }

small-IsValid : Laws.IsValid small
unfolding Cache.find
small-IsValid = record { room = omega arith; bounded = omega arith; distinct = (refl, (refl, tt)) }

entries-set-get_example :
    ((get "a" 8 small).0 ≡ some 10)
    × ((set "c" 30 9 (get "a" 8 small).1).entries ≡ ("a", (1, 10)) ∷ ("c", (9, 30)) ∷ [])
unfolding Cache.find
entries-set-get_example =
    Laws.entries-set-get small "a" "c" 1 8 9 10 30 [] (("b", (2, 20)) ∷ []) [] ("b", (2, 20))
      small-IsValid refl refl refl refl refl

run-init-IsValid_example : Laws.IsValid (
    Laws.run
      (Cache.init {V = ℕ} 0 0)
      ((1, Laws.Call.set_call "a" 1) ∷ (2, Laws.Call.get_call "a") ∷ []))
run-init-IsValid_example =
    Laws.run-init-IsValid 0 0 ((1, Laws.Call.set_call "a" 1) ∷ (2, Laws.Call.get_call "a") ∷ [])

format_duration_minute : format_duration 61 ≡ "1m 1s"
unfolding format_duration show_ℕ
format_duration_minute = refl

-- 3 + f(4)
abbrev call_tree : Node
call_tree = node "Expression" (
    child
      (node "BinOp"
        (child (node "Constant" none_left) (child (node "Add" none_left) (child call none_left))))
      none_left)
  where
    call : Node
    call = node "Call" (child (node "Name" none_left) (child (node "Constant" none_left) none_left))

abbrev parse_call : String → Result Node
parse_call s = ok call_tree

abbrev seven : Node → Result (Option String)
seven tree = ok (some "7")

safe_eval_refused_example :
    safe_eval parse_call seven "3+f(4)" ≡ raise (bad_value SafeMath.not_allowed)
unfolding any count
safe_eval_refused_example =
    Refused.safe_eval_refused parse_call seven "3+f(4)" "Call" call_tree refl refl
      (under (in_first (under (in_rest (in_rest (in_first at_root))))))
