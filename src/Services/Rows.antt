-- ===== src/Services/Rows.antt =====
-- No command and no plugin makes a row of the table `groups`: the chats that have one never change.
pub mod Handlers
pub mod Plugins
use rubica_bot.Prelude.{
  ℕ, String, Bool, true, false, ◌≡◌, refl, ap, ◌∙◌, Option, none, some, List, [], ◌∷◌, map, str_eq,
  if◌then◌else◌, Bool-cases, inl, inr,
}
use rubica_bot.Result.{Result, ok, raise}
use rubica_bot.Json.{Value}
use rubica_bot.Core.Client.Calls.{Call}
use rubica_bot.Db.Repository.Groups.{db-get_group}
use rubica_bot.Db.Tables.{Db, GroupSettings}
use rubica_bot.Db.Repository
use rubica_bot.Db.Repository.{Flag, set_flag, update_flag, add_filter, remove_filter}
use rubica_bot.Services.Action.{World, Action, with_repo, on_db, ask}
use rubica_bot.Services.Keeps.{Keeps, keeps}
use rubica_bot.Services.Context.{Context, request, get_group, is_admin, is_admin_sender}
use rubica_bot.Services.Commands.{Handler}
use rubica_bot.Services.Handlers.Info.{
  reply, in_chat, help_handler, setcmd_handler, ping_handler, coin_handler, roll_handler,
  joke_handler, uptime_text, uptime_handler, stats_text, stats_handler, echo_handler, id_handler,
  time_handler, calc_handler, about_handler, models_handler,
}
use rubica_bot.Services.Handlers.Moderation.{
  set_group_flag, settings_handler, admins_handler, set_anti_link, antilink_handler, filters_of,
  filter_handler, replied_to, ban_handler, unban_handler,
}

abbrev pub chats : Db → List String
chats db = map (λ (g : GroupSettings). g.chat_id) db.groups

-- The chats with a row are these.
abbrev pub HasRows : List String → World → Type 0
HasRows ids w = chats w.repo.db ≡ ids

set_flag-chat_id :
    (key : Flag) (value : Bool) (g : GroupSettings) → (set_flag key value g).chat_id ≡ g.chat_id
unfolding set_flag
set_flag-chat_id Flag.anti_link value g = refl
set_flag-chat_id Flag.anti_flood value g = refl
set_flag-chat_id Flag.anti_spam value g = refl
set_flag-chat_id Flag.anti_badwords value g = refl
set_flag-chat_id Flag.anti_forward value g = refl

chats-update_flag :
    (chat_id : String) (key : Flag) (value : Bool) (gs : List GroupSettings)
    → map (λ (g : GroupSettings). g.chat_id) (update_flag chat_id key value gs)
      ≡ map (λ (g : GroupSettings). g.chat_id) gs
unfolding update_flag
chats-update_flag chat_id key value [] = refl
chats-update_flag chat_id key value (g ∷ gs) = elim (Bool-cases (str_eq g.chat_id chat_id)) [
  | inl this ↦ rw this (
      ap (λ c. c ∷ map (λ (h : GroupSettings). h.chat_id) (update_flag chat_id key value gs))
        (set_flag-chat_id key value g)
      ∙ ap (◌∷◌ g.chat_id) (chats-update_flag chat_id key value gs))
  | inr other ↦ rw other (ap (◌∷◌ g.chat_id) (chats-update_flag chat_id key value gs))
]

module _ (ids : List String) where
  pub request-HasRows : (ctx : Context) (c : Call) → Keeps (HasRows ids) (request ctx c)
  unfolding request ask
  request-HasRows ctx c = record { at' = λ w p. p }

  with_get_group :
      (key : String) (now : ℕ) → Keeps (HasRows ids) (with_repo (Repository.get_group key now))
  unfolding with_repo
  with_get_group key now = record { at' = λ w p. ap chats (db-get_group key now w.repo) ∙ p }

  pub get_group-HasRows : (ctx : Context) (v : Value) → Keeps (HasRows ids) (get_group ctx v)
  unfolding get_group
  get_group-HasRows ctx v = search (keeps, with_get_group)

  with_set_flag :
      (chat : String) (key : Flag) (value : Bool)
      → Keeps {0} (HasRows ids) (with_repo (λ r. (tt, Repository.set_group_flag chat key value r)))
  unfolding with_repo Repository.set_group_flag
  with_set_flag chat key value = record {
    at' = λ w p. chats-update_flag chat key value w.repo.db.groups ∙ p;
  }

  pub set_group_flag-HasRows :
      (v : Value) (key : Flag) (value : Bool) → Keeps (HasRows ids) (set_group_flag v key value)
  unfolding set_group_flag
  set_group_flag-HasRows v key value = search (keeps, with_set_flag)

  pub add_filter-HasRows :
      (chat word : String) (white regex : Bool)
      → Keeps (HasRows ids) (on_db (add_filter chat word white regex))
  unfolding on_db add_filter
  add_filter-HasRows chat word white regex = record { at' = λ w p. p }

  pub remove_filter-HasRows :
      (chat word : String) → Keeps (HasRows ids) (on_db (remove_filter chat word))
  unfolding on_db remove_filter
  remove_filter-HasRows chat word = record { at' = λ w p. p }

  pub is_admin_sender-HasRows :
      (chat sender : Value) → Keeps (HasRows ids) (is_admin_sender chat sender)
  unfolding is_admin_sender is_admin
  is_admin_sender-HasRows chat sender = search keeps

  pub reply-HasRows :
      (ctx : Context) (chat : Value) (text : String) → Keeps (HasRows ids) (reply ctx chat text)
  unfolding reply
  reply-HasRows ctx chat text = search (keeps, request-HasRows)

  pub in_chat-HasRows :
      (act : Context → Value → Action {0} Unit) (ctx : Context) (message : Value)
      → ((c : Value) → Keeps (HasRows ids) (act ctx c))
      → Keeps (HasRows ids) (in_chat act ctx message)
  unfolding in_chat
  in_chat-HasRows act ctx message h = search (keeps, h)

  pub ruleset rows = (
    keeps, request-HasRows, get_group-HasRows, set_group_flag-HasRows, add_filter-HasRows,
    remove_filter-HasRows, is_admin_sender-HasRows, reply-HasRows, in_chat-HasRows,
  )
