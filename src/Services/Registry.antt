-- ===== src/Services/Registry.antt =====
-- app/services/plugins/base.py and registry.py: `Plugin` and `PluginRegistry.dispatch`.
pub mod Order
use rubica_bot.Prelude.{Bool, true, false, List, [], ◌∷◌, if◌then◌else◌}
use rubica_bot.Json.{Value}
use rubica_bot.Services.Action.{Action, ◌>>=◌, return}
use rubica_bot.Services.Context.{Context}

abbrev pub Plugin : Type 0
Plugin = Context → Value → Action Bool

unfoldable pub dispatch : List Plugin → Context → Value → Action {0} Unit
dispatch [] ctx update = return tt
dispatch (handle ∷ plugins) ctx update = do
  handled ← handle ctx update
  if handled then return tt else dispatch plugins ctx update
