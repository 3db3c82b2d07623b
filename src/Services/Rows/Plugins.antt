-- ===== src/Services/Rows/Plugins.antt =====
-- The plugins and the whole of `dispatch` make no row of `groups`.
use rubica_bot.Prelude.{
  ℕ, String, ◌≡◌, Option, none, some, List, [], ◌∷◌, str_eq, Bool-cases, inl, inr,
}
use rubica_bot.Result.{Result, ok, raise, IfOk, IfOk-bind}
use rubica_bot.Json.{Value}
use rubica_bot.Db.Tables.{Db, GroupSettings, column, bind}
use rubica_bot.Db.Messages.{NewUpdate, save_message, save_incoming_update}
use rubica_bot.Core.Queue.{Job}
use rubica_bot.Db.Repository.{Flag}
use rubica_bot.Services.Action.{World}
use rubica_bot.Services.Context.{Context, Settings, is_admin}
use rubica_bot.Services.Keeps.{Keeps}
use rubica_bot.Services.Commands.{Command, Handler, refuses, run_command}
use rubica_bot.Services.Commands
use rubica_bot.Services.Registry.{Plugin, dispatch}
use rubica_bot.Services.Rows.{HasRows, rows, chats}
use rubica_bot.Services.Rows.Handlers.{RowsKept, filters_of-HasRows}
use rubica_bot.Services.Plugins.AntiFlood
use rubica_bot.Services.Plugins.AntiLink
use rubica_bot.Services.Plugins.Filters
use rubica_bot.Services.Plugins.Records
use rubica_bot.Services.Plugins.Rows.{save_values}
use rubica_bot.Services.Plugins.Panel
use rubica_bot.Db.Messages.Selection.{All}

module _ (ids : List String) where
  abbrev pub PluginKeeps : Plugin → Type 0
  PluginKeeps handle = (ctx : Context) (update : Value) → Keeps (HasRows ids) (handle ctx update)

  note_event-HasRows : (key : String) (now : ℕ) → Keeps (HasRows ids) (AntiFlood.note_event key now)
  unfolding AntiFlood.note_event
  note_event-HasRows key now = record { at' = λ w p. p }

  is_admin-HasRows : (c s : Value) → Keeps (HasRows ids) (is_admin c s)
  unfolding is_admin
  is_admin-HasRows c s = search rows

  punish_flood-HasRows :
      (ctx : Context) (m c s : Value) → Keeps (HasRows ids) (AntiFlood.punish ctx m c s)
  unfolding AntiFlood.punish
  punish_flood-HasRows ctx m c s = search rows depth 8

  count_event-HasRows :
      (ctx : Context) (m c s : Value) (g : GroupSettings)
      → Keeps (HasRows ids) (AntiFlood.count_event ctx m c s g)
  unfolding AntiFlood.count_event
  count_event-HasRows ctx m c s g = search (rows, note_event-HasRows, punish_flood-HasRows)

  pub anti_flood-PluginKeeps : PluginKeeps AntiFlood.handle
  unfolding AntiFlood.handle
  anti_flood-PluginKeeps ctx update = search (rows, is_admin-HasRows, count_event-HasRows) depth 12

  punish_link-HasRows :
      (ctx : Context) (m c s : Value) → Keeps (HasRows ids) (AntiLink.punish ctx m c s)
  unfolding AntiLink.punish
  punish_link-HasRows ctx m c s = search rows depth 10

  check_link-HasRows :
      (ctx : Context) (m c : Value) → Keeps (HasRows ids) (AntiLink.check_link ctx m c)
  unfolding AntiLink.check_link
  check_link-HasRows ctx m c = search (rows, punish_link-HasRows) depth 10

  pub anti_link-PluginKeeps : PluginKeeps AntiLink.handle
  unfolding AntiLink.handle
  anti_link-PluginKeeps ctx update = search (rows, check_link-HasRows) depth 14

  check_words-HasRows :
      (ctx : Context) (m c : Value) → Keeps (HasRows ids) (Filters.check_words ctx m c)
  unfolding Filters.check_words
  check_words-HasRows ctx m c = search rows depth 14

  pub filters-PluginKeeps : PluginKeeps Filters.handle
  unfolding Filters.handle
  filters-PluginKeeps ctx update = search (rows, check_words-HasRows) depth 12

  saved_update :
      (row : Result NewUpdate) (w : World)
      → HasRows ids w
      → chats (Records.save_snapshot row w.repo.db) ≡ ids
  unfolding Records.save_snapshot save_incoming_update
  saved_update (ok row) w p = p
  saved_update (raise e) w p = p

  snapshot_with-HasRows :
      (ctx : Context) (update : Value) (s : Option Settings) (job : Option Job) (w : World)
      → HasRows ids w
      → HasRows ids (Records.snapshot_with (record ctx { job = job }) update s w)
  snapshot_with-HasRows ctx update none job w p = p
  snapshot_with-HasRows ctx update (some s) job w p = elim (Bool-cases s.incoming_updates_enabled) [
    | inl on ↦ rw on (keep_job job)
    | inr off ↦ rw off p
  ]
    where
      keep_job :
          (job : Option Job)
          → HasRows ids (Records.save_job (record ctx { job = job }) update s job w)
      keep_job none = p
      keep_job (some j) = saved_update _ w p

  pub snapshot-PluginKeeps : PluginKeeps Records.handle_snapshot
  unfolding Records.handle_snapshot
  snapshot-PluginKeeps ctx update = record {
    at' = λ w p. snapshot_with-HasRows ctx update ctx.settings ctx.job w p;
  }

  saved-HasRows :
      (w : World) (r : Result Db)
      → HasRows ids w
      → IfOk (λ db. chats db ≡ ids) r
      → HasRows ids (Records.saved w r).1
  saved-HasRows w (ok db) p h = h
  saved-HasRows w (raise e) p h = p

  keep_message-HasRows : (c m s t : Value) → Keeps (HasRows ids) (Records.keep_message c m s t)
  unfolding Records.keep_message save_values save_message
  keep_message-HasRows c m s t = record {
    at' = λ w p. saved-HasRows w (save_values c m s t w.repo.db) p (
        IfOk-bind _ (column c) _ λ chat.
          IfOk-bind _ (column m) _
            λ id. IfOk-bind _ (bind s) _ λ sender. IfOk-bind _ (bind t) _ λ body. p);
  }

  pub logging-PluginKeeps : PluginKeeps Records.handle_logging
  unfolding Records.handle_logging
  logging-PluginKeeps ctx update = search (rows, keep_message-HasRows) depth 16

  toggle-HasRows :
      (ctx : Context) (c b : Value) (key : Flag) (text : String)
      → Keeps (HasRows ids) (Panel.toggle ctx c b key text)
  unfolding Panel.toggle Panel.send Panel.refresh_panel
  toggle-HasRows ctx c b key text = search rows depth 16

  show_filters-HasRows :
      (ctx : Context) (c : Value) → Keeps (HasRows ids) (Panel.show_filters ctx c)
  unfolding Panel.show_filters Panel.send
  show_filters-HasRows ctx c = search (rows, filters_of-HasRows) depth 8

  press-HasRows :
      (ctx : Context) (c b : Value) (text : String) → Keeps (HasRows ids) (Panel.press ctx c b text)
  unfolding Panel.press Panel.send
  press-HasRows ctx c b text = search (rows, toggle-HasRows, show_filters-HasRows) depth 12

  show_panel-HasRows : (ctx : Context) (m : Value) → Keeps (HasRows ids) (Panel.show_panel ctx m)
  unfolding Panel.show_panel Panel.send
  show_panel-HasRows ctx m = search rows depth 10

  handle_callback-HasRows :
      (ctx : Context) (u : Value) → Keeps (HasRows ids) (Panel.handle_callback ctx u)
  unfolding Panel.handle_callback
  handle_callback-HasRows ctx u = search (rows, press-HasRows) depth 14

  pub panel-PluginKeeps : PluginKeeps Panel.handle
  unfolding Panel.handle
  panel-PluginKeeps ctx update = search (rows, show_panel-HasRows, handle_callback-HasRows) depth 12

  abbrev pub CommandKeeps : Command → Type 0
  CommandKeeps c = RowsKept ids c.handler

  refuses-HasRows :
      (ctx : Context) (c : Command) (chat sender : Value)
      → Keeps (HasRows ids) (refuses ctx c chat sender)
  unfolding refuses
  refuses-HasRows ctx c chat sender = search (rows, is_admin-HasRows) depth 8

  run_command-HasRows :
      (registry : List Command) (name : String) (ctx : Context) (m : Value) (args : List String)
      → All CommandKeeps registry
      → Keeps (HasRows ids) (run_command ctx m args (Commands.get name registry))
  unfolding run_command Commands.get
  run_command-HasRows [] name ctx m args h = search rows
  run_command-HasRows (c ∷ cs) name ctx m args h = elim (Bool-cases (str_eq c.name name)) [
    | inl this ↦ rw this (search (rows, refuses-HasRows, h.0) depth 12)
    | inr other ↦ rw other (run_command-HasRows cs name ctx m args h.1)
  ]

  pub commands-PluginKeeps :
      (registry : List Command) → All CommandKeeps registry → PluginKeeps (Commands.handle registry)
  unfolding Commands.handle
  commands-PluginKeeps registry h ctx update =
      search
        (
          rows,
          λ (name : String) (m : Value) (args : List String).
              run_command-HasRows registry name ctx m args h,
        )
        depth 14

  pub dispatch-HasRows :
      (plugins : List Plugin)
      → All PluginKeeps plugins
      → (ctx : Context) (update : Value) → Keeps (HasRows ids) (dispatch plugins ctx update)
  unfolding dispatch
  dispatch-HasRows [] h ctx update = search rows
  dispatch-HasRows (handle ∷ plugins) h ctx update =
      search (rows, h.0, dispatch-HasRows plugins h.1)
