-- ===== src/Bot/Settings.antt =====
-- The program makes no row of `groups`, so in a fresh database every chat keeps the default settings.
use rubica_bot.Prelude.{String, ◌≡◌, refl, arith, none, some, List, [], ◌∷◌}
use rubica_bot.Core.Queue.{Job}
use rubica_bot.Db.Tables.{Db, GroupSettings, default_group}
use rubica_bot.Db.Repository.{stored_group, select_group}
use rubica_bot.Services.Action.{World}
use rubica_bot.Services.Context.{Context}
use rubica_bot.Services.Commands.{register}
use rubica_bot.Services.Rows.{HasRows, chats}
use rubica_bot.Services.Rows.Handlers.{
  help-RowsKept, setcmd-RowsKept, ping-RowsKept, uptime-RowsKept, stats-RowsKept, echo-RowsKept,
  id-RowsKept, time-RowsKept, calc-RowsKept, coin-RowsKept, roll-RowsKept, joke-RowsKept,
  models-RowsKept, about-RowsKept, settings-RowsKept, admins-RowsKept, antilink-RowsKept,
  filter-RowsKept, delete-RowsKept, ban-RowsKept, unban-RowsKept,
}
use rubica_bot.Services.Rows.Plugins.{
  PluginKeeps, CommandKeeps, snapshot-PluginKeeps, logging-PluginKeeps, anti_link-PluginKeeps,
  anti_flood-PluginKeeps, filters-PluginKeeps, commands-PluginKeeps, panel-PluginKeeps,
  dispatch-HasRows,
}
use rubica_bot.Db.Messages.Selection.{All}
use rubica_bot.Bot.{command_registry, register_all, plugins, process_job}

registry_keeps : (ids : List String) → All (CommandKeeps ids) command_registry
unfolding command_registry register_all register
registry_keeps ids = (
  help-RowsKept ids,
  (
    setcmd-RowsKept ids,
    (
      ping-RowsKept ids,
      (
        uptime-RowsKept ids,
        (
          stats-RowsKept ids,
          (
            echo-RowsKept ids,
            (
              id-RowsKept ids,
              (
                time-RowsKept ids,
                (
                  calc-RowsKept ids,
                  (
                    coin-RowsKept ids,
                    (
                      roll-RowsKept ids,
                      (
                        joke-RowsKept ids,
                        (
                          models-RowsKept ids,
                          (
                            about-RowsKept ids,
                            (
                              settings-RowsKept ids,
                              (
                                admins-RowsKept ids,
                                (
                                  antilink-RowsKept ids,
                                  (
                                    filter-RowsKept ids,
                                    (
                                      delete-RowsKept ids,
                                      (ban-RowsKept ids, (unban-RowsKept ids, tt)),
                                    ),
                                  ),
                                ),
                              ),
                            ),
                          ),
                        ),
                      ),
                    ),
                  ),
                ),
              ),
            ),
          ),
        ),
      ),
    ),
  ),
)

plugins_keep : (ids : List String) → All (PluginKeeps ids) plugins
unfolding plugins
plugins_keep ids = (
  snapshot-PluginKeeps ids,
  (
    logging-PluginKeeps ids,
    (
      anti_link-PluginKeeps ids,
      (
        anti_flood-PluginKeeps ids,
        (
          filters-PluginKeeps ids,
          (
            commands-PluginKeeps ids command_registry (registry_keeps ids),
            (panel-PluginKeeps ids, tt),
          ),
        ),
      ),
    ),
  ),
)

-- The jobs of a run, each with the context in which it is processed.
unfoldable pub process_all : List (Context × Job) → World → World
unfolding process_job
process_all [] w = w
process_all ((ctx, job) ∷ jobs) w = process_all jobs (process_job ctx job w).1

process_all-HasRows :
    (ids : List String) (jobs : List (Context × Job)) (w : World)
    → HasRows ids w
    → HasRows ids (process_all jobs w)
unfolding process_all process_job
process_all-HasRows ids [] w p = p
process_all-HasRows ids ((ctx, job) ∷ jobs) w p =
    process_all-HasRows ids jobs _
      ((dispatch-HasRows ids plugins (plugins_keep ids) (record ctx { job = some job }) _).at' w p)

no_row :
    (gs : List GroupSettings) (db : Db) (chat_id : String)
    → db.groups ≡ gs
    → chats db ≡ []
    → stored_group chat_id db ≡ default_group chat_id none
unfolding stored_group select_group
no_row [] db chat_id e h = rw e refl
no_row (g ∷ gs) db chat_id e h = ground (arith, e, h)

-- Whatever jobs are processed, no row of `groups` is made: if the table is empty, every chat has the
-- default settings afterwards, although commands and the panel set flags.
pub process_all-default_group :
    (jobs : List (Context × Job)) (w : World) (chat_id : String)
    → chats w.repo.db ≡ []
    → stored_group chat_id (process_all jobs w).repo.db ≡ default_group chat_id none
process_all-default_group jobs w chat_id p =
    no_row _ (process_all jobs w).repo.db chat_id refl (process_all-HasRows [] jobs w p)
