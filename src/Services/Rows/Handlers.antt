-- ===== src/Services/Rows/Handlers.antt =====
-- The handlers of the commands make no row of `groups`.
use rubica_bot.Prelude.{ℕ, String, Option, none, some, List, [], ◌∷◌}
use rubica_bot.Prelude.Int.{ℤ}
use rubica_bot.Json.{Value, str}
use rubica_bot.Core.Client.Calls.{delete_message}
use rubica_bot.Services.Action.{World}
use rubica_bot.Services.Context.{Context, request}
use rubica_bot.Services.Keeps.{Keeps}
use rubica_bot.Services.Commands.{Handler}
use rubica_bot.Services.Handlers.Info.{
  help_handler, setcmd_handler, ping_handler, coin_handler, roll_handler, joke_handler,
  uptime_handler, stats_handler, echo_handler, id_handler, time_handler, calc_handler,
  about_handler, models_handler,
}
use rubica_bot.Services.Handlers.Moderation.{
  settings_handler, admins_handler, set_anti_link, antilink_handler, filters_of, filter_handler,
  change_filters, replied_to, ban_handler, unban_handler,
}
use rubica_bot.Services.Handlers.Delete.{
  delete_all, delete_ids, delete_recent, delete_handler, counts,
}
use rubica_bot.Services.Rows.{HasRows, rows}

abbrev pub RowsKept : List String → Handler → Type 0
RowsKept ids handler =
    (ctx : Context) (message : Value) (args : List String)
    → Keeps (HasRows ids) (handler ctx message args)

module _ (ids : List String) where
  pub help-RowsKept : RowsKept ids help_handler
  unfolding help_handler
  help-RowsKept ctx message args = search (rows)

  pub setcmd-RowsKept : RowsKept ids setcmd_handler
  unfolding setcmd_handler
  setcmd-RowsKept ctx message args = search (rows)

  pub ping-RowsKept : RowsKept ids ping_handler
  unfolding ping_handler
  ping-RowsKept ctx message args = search (rows)

  pub coin-RowsKept : RowsKept ids coin_handler
  unfolding coin_handler
  coin-RowsKept ctx message args = search (rows)

  pub roll-RowsKept : RowsKept ids roll_handler
  unfolding roll_handler
  roll-RowsKept ctx message args = search (rows)

  pub joke-RowsKept : RowsKept ids joke_handler
  unfolding joke_handler
  joke-RowsKept ctx message args = search (rows)

  pub uptime-RowsKept : RowsKept ids uptime_handler
  unfolding uptime_handler
  uptime-RowsKept ctx message args = search (rows)

  pub stats-RowsKept : RowsKept ids stats_handler
  unfolding stats_handler
  stats-RowsKept ctx message args = search (rows)

  pub echo-RowsKept : RowsKept ids echo_handler
  unfolding echo_handler
  echo-RowsKept ctx message args = search (rows)

  pub id-RowsKept : RowsKept ids id_handler
  unfolding id_handler
  id-RowsKept ctx message args = search (rows)

  pub time-RowsKept : RowsKept ids time_handler
  unfolding time_handler
  time-RowsKept ctx message args = search (rows)

  pub calc-RowsKept : RowsKept ids calc_handler
  unfolding calc_handler
  calc-RowsKept ctx message args = search (rows)

  pub about-RowsKept : RowsKept ids about_handler
  unfolding about_handler
  about-RowsKept ctx message args = search (rows)

  pub models-RowsKept : RowsKept ids models_handler
  unfolding models_handler
  models-RowsKept ctx message args = search (rows)

  pub settings-RowsKept : RowsKept ids settings_handler
  unfolding settings_handler
  settings-RowsKept ctx message args = search (rows)

  pub admins-RowsKept : RowsKept ids admins_handler
  unfolding admins_handler
  admins-RowsKept ctx message args = search (rows)

  pub antilink-RowsKept : RowsKept ids antilink_handler
  unfolding antilink_handler set_anti_link
  antilink-RowsKept ctx message [] = search (rows)
  antilink-RowsKept ctx message (word ∷ args) = search (rows)

  pub filters_of-HasRows : (v : Value) → Keeps (HasRows ids) (filters_of v)
  unfolding filters_of
  filters_of-HasRows v = search (rows)

  change_filters-HasRows :
      (ctx : Context) (v : Value) (action word : String)
      → Keeps (HasRows ids) (change_filters ctx v action word)
  unfolding change_filters
  change_filters-HasRows ctx v action word = search rows depth 8

  pub filter-RowsKept : RowsKept ids filter_handler
  unfolding filter_handler
  filter-RowsKept ctx message [] = search (rows)
  filter-RowsKept ctx message (action ∷ []) = search (rows, filters_of-HasRows)
  filter-RowsKept ctx message (action ∷ word ∷ args) =
      search (rows, filters_of-HasRows, change_filters-HasRows)

  replied_to-HasRows : (m : Value) → Keeps (HasRows ids) (replied_to m)
  unfolding replied_to
  replied_to-HasRows m = search (rows)

  pub ban-RowsKept : RowsKept ids ban_handler
  unfolding ban_handler
  ban-RowsKept ctx message [] = search (rows, replied_to-HasRows)
  ban-RowsKept ctx message (id ∷ args) = search (rows)

  pub unban-RowsKept : RowsKept ids unban_handler
  unfolding unban_handler
  unban-RowsKept ctx message [] = search (rows)
  unban-RowsKept ctx message (id ∷ args) = search (rows)

  db-delete_all :
      (ctx : Context) (v : Value) (l : List String) (d f : ℕ) (w : World)
      → HasRows ids w
      → HasRows ids (delete_all ctx v l d f w).1
  unfolding delete_all
  db-delete_all ctx v [] d f w p = p
  db-delete_all ctx v (id ∷ l) d f w p = db-delete_all ctx v l _ _ _ (sent_rows.at' w p)
    where
      sent_rows : Keeps (HasRows ids) (request ctx (delete_message v (str id)))
      sent_rows = search (rows)

  counts-HasRows :
      (ctx : Context) (v : Value) (l : List String) → Keeps (HasRows ids) (counts ctx v l)
  unfolding counts
  counts-HasRows ctx v l = record { at' = λ w p. db-delete_all ctx v l 0 0 w p }

  delete_ids-HasRows :
      (ctx : Context) (v : Value) (l : List String) → Keeps (HasRows ids) (delete_ids ctx v l)
  unfolding delete_ids
  delete_ids-HasRows ctx v [] = search (rows)
  delete_ids-HasRows ctx v (id ∷ l) = search (rows, counts-HasRows)

  delete_recent-HasRows :
      (n : Option ℤ) (ctx : Context) (v : Value) → Keeps (HasRows ids) (delete_recent n ctx v)
  unfolding delete_recent
  delete_recent-HasRows none ctx v = search (rows)
  delete_recent-HasRows (some n) ctx v = search (rows, delete_ids-HasRows)

  pub delete-RowsKept : RowsKept ids delete_handler
  unfolding delete_handler
  delete-RowsKept ctx message args = search (rows, delete_recent-HasRows)
