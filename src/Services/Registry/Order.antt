-- ===== src/Services/Registry/Order.antt =====
-- Which plugins an update reaches.
use rubica_bot.Prelude.{Bool, true, false, ◌≡◌, refl, ap, ◌∙◌, List, [], ◌∷◌, ◌++◌, if◌then◌else◌}
use rubica_bot.Result.{Result, ok, raise, Error}
use rubica_bot.Json.{Value}
use rubica_bot.Services.Action.{World, next, ◌>>=◌, return}
use rubica_bot.Services.Context.{Context}
use rubica_bot.Services.Registry.{Plugin, dispatch}

-- Every plugin of the list declines the update, and the world goes from one to the other.
pub data Decline (ctx : Context) (update : Value) : List Plugin → World → World → Type 0 where
  nobody : (w : World) → Decline ctx update [] w w
  declines :
      (plugin : Plugin) (plugins : List Plugin) (w w' w'' : World)
      → plugin ctx update w ≡ (ok false, w')
      → Decline ctx update plugins w' w''
      → Decline ctx update (plugin ∷ plugins) w w''

module _ (ctx : Context) (update : Value) where
  dispatch-step :
      (plugin : Plugin) (rest : List Plugin) (w w' : World) (r : Result Bool)
      → plugin ctx update w ≡ (r, w')
      → dispatch (plugin ∷ rest) ctx update w
        ≡ next (λ handled. if handled then return tt else dispatch rest ctx update) (r, w')
  unfolding dispatch ◌>>=◌
  dispatch-step plugin rest w w' r e =
      ap (next (λ handled. if handled then return tt else dispatch rest ctx update)) e

  dispatch-Decline :
      (pre post : List Plugin) (w w' : World)
      → Decline ctx update pre w w'
      → dispatch (pre ++ post) ctx update w ≡ dispatch post ctx update w'
  dispatch-Decline [] post w w' (nobody v) = refl
  dispatch-Decline (plugin ∷ plugins) post w w' (declines _ _ _ v _ e d) =
      dispatch-step plugin (plugins ++ post) w v (ok false) e ∙ dispatch-Decline plugins post v w' d

  -- The plugins run in their order until one takes the update or raises: what it left is the result,
  -- and the later ones do not run.
  pub dispatch-first :
      (pre post : List Plugin) (plugin : Plugin) (w w' w'' : World)
      → Decline ctx update pre w w'
      → (plugin ctx update w' ≡ (ok true, w'')
          → dispatch (pre ++ plugin ∷ post) ctx update w ≡ (ok tt, w''))
        × ((e : Error)
            → plugin ctx update w' ≡ (raise e, w'')
            → dispatch (pre ++ plugin ∷ post) ctx update w ≡ (raise e, w''))
  unfolding return
  dispatch-first pre post plugin w w' w'' d = (
    λ h. dispatch-Decline pre (plugin ∷ post) w w' d ∙ dispatch-step plugin post w' w'' (ok true) h,
    λ e h.
        dispatch-Decline pre (plugin ∷ post) w w' d ∙ dispatch-step plugin post w' w'' (raise e) h,
  )
