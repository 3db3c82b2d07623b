-- ===== src/Core/Queue/Order.antt =====
-- `JobQueue.get`: the order in which jobs are served.
use rubica_bot.Prelude.{
  ℕ, zero, suc, ◌≡◌, refl, Option, none, some, List, [], ◌∷◌, ◌++◌, arith, inl, inr, Option-cases,
  ap,
}
use rubica_bot.Prelude.Lists.{length}
use rubica_bot.Core.Queue.{Job, JobQueue, Got, get, take_high, take_normal}

-- What waits, in the order in which it is served: the high queue, then the normal one.
unfoldable pub waiting : JobQueue → List (Option Job)
waiting q = q.high_queue.items ++ q.normal_queue.items

get-waiting : (q : JobQueue) (g : Got) → get q ≡ some g → waiting q ≡ g.job ∷ waiting g.queue
unfolding get waiting take_high take_normal
get-waiting q g e = ground arith

get-none : (q : JobQueue) → get q ≡ none → waiting q ≡ []
unfolding get waiting
get-none q e = ground arith

-- Repeated calls of `get`, up to the first that would wait.
pub serve : ℕ → JobQueue → List (Option Job)
serve zero q = []
serve (suc n) q = elim (get q) [ none ↦ [] | some g ↦ g.job ∷ serve n g.queue ]

-- As many calls of `get` as there are items serve every item, first the high queue and then the
-- normal one, each in the order of arrival.
pub serve-waiting : (n : ℕ) (q : JobQueue) → length (waiting q) ≡ n → serve n q ≡ waiting q
unfolding serve
serve-waiting zero q h = ground arith
serve-waiting (suc n) q h = elim (Option-cases (get q)) [
  | inl e ↦ absurd (omega (arith, ap length (get-none q e)))
  | inr (g, e) ↦
      rw (e, serve)
        (ground (
          arith,
          get-waiting q g e,
          serve-waiting n g.queue (omega (arith, ap length (get-waiting q g e))),
        ))
]

-- Fewer calls serve what waits first.
pub serve-append :
    (n : ℕ) (q : JobQueue) (xs ys : List (Option Job))
    → waiting q ≡ xs ++ ys
    → length xs ≡ n
    → serve n q ≡ xs
unfolding serve
serve-append zero q [] ys e h = refl
serve-append zero q (x ∷ xs) ys e h = absurd (omega arith)
serve-append (suc n) q [] ys e h = absurd (omega arith)
serve-append (suc n) q (x ∷ xs) ys e h = elim (Option-cases (get q)) [
  | inl c ↦ absurd (ground (arith, get-none q c))
  | inr (g, c) ↦ rw (c, serve) (ground (arith, get-waiting q g c, serve-append n g.queue xs ys))
]
