-- ===== src/Services/Plugins/Exempt.antt =====
-- The admins of a chat are exempt from the plugins that punish.
use rubica_bot.Prelude.{ℕ, String, Bool, true, false, not, ◌≡◌, refl, ◌∙◌, List, if◌then◌else◌}
use rubica_bot.Result.{ok}
use rubica_bot.Json.{Value, truthy}
use rubica_bot.Utils.Message.{extract_message, get_chat_id, get_sender_id}
use rubica_bot.Core.Client.Calls.{Call}
use rubica_bot.Db.Tables.{Db, column}
use rubica_bot.Db.Repository
use rubica_bot.Db.Repository.Groups.{db-get_group}
use rubica_bot.Services.Action.{World, Action, ◌>>=◌, return, lift, from_db, with_repo}
use rubica_bot.Services.Context.{Context, get_group, is_admin, is_admin_sender}
use rubica_bot.Services.Keeps.{Keeps, keeps, Keeps-bind_ok, Keeps-if, Keeps-return}
use rubica_bot.Services.Plugins.AntiFlood
use rubica_bot.Services.Plugins.AntiLink
use rubica_bot.Services.Plugins.Filters

-- The calls made and the tables are these.
abbrev pub Untouched : List Call → Db → World → Type 0
Untouched calls db w = (w.sent ≡ calls) × (w.repo.db ≡ db)

module _ (calls : List Call) (db : Db) where
  with_get_group :
      (key : String) (now : ℕ)
      → Keeps (Untouched calls db) (with_repo (Repository.get_group key now))
  unfolding with_repo
  with_get_group key now = record { at' = λ w p. (p.0, db-get_group key now w.repo ∙ p.1) }

  get_group-Untouched : (ctx : Context) (v : Value) → Keeps (Untouched calls db) (get_group ctx v)
  unfolding get_group
  get_group-Untouched ctx v = search (keeps, with_get_group)

  module _ (chat_id sender_id : Value) (chat user : String) (chat_key : column chat_id ≡ ok chat)
      (user_key : column sender_id ≡ ok user) (has_sender : truthy sender_id ≡ true)
      (admin : Repository.is_admin chat user db ≡ true) where
    is_admin-exempt :
        (m : Action Bool)
        → Keeps
            (Untouched calls db)
            (is_admin chat_id sender_id >>= λ admin. if admin then return false else m)
    unfolding is_admin ◌>>=◌ lift from_db return
    is_admin-exempt m = record { at' = λ w p. rw (chat_key, user_key, p.1, admin) (p.0, refl) }

    is_admin_sender-exempt :
        (m : Action Bool)
        → Keeps
            (Untouched calls db)
            (is_admin_sender chat_id sender_id >>= λ admin. if admin then return false else m)
    unfolding is_admin_sender
    is_admin_sender-exempt m = rw has_sender (is_admin-exempt m)

    module _ (ctx : Context) (update message : Value)
        (extracted : extract_message update ≡ ok message)
        (its_chat : get_chat_id message ≡ ok chat_id)
        (its_sender : get_sender_id message ≡ ok sender_id) where
      anti_flood-exempt : Keeps (Untouched calls db) (AntiFlood.handle ctx update)
      unfolding AntiFlood.handle
      anti_flood-exempt = Keeps-bind_ok _ message _ extracted (
          Keeps-if (not (truthy message)) _ _ (Keeps-return false) (
            Keeps-bind_ok _ chat_id _ its_chat (
              Keeps-bind_ok _ sender_id _ its_sender
                (search (keeps, get_group-Untouched, is_admin-exempt) depth 10))))

      check_link-exempt : Keeps (Untouched calls db) (AntiLink.check_link ctx message chat_id)
      unfolding AntiLink.check_link
      check_link-exempt = Keeps-bind_ok _ sender_id _ its_sender (is_admin_sender-exempt _)

      anti_link-exempt : Keeps (Untouched calls db) (AntiLink.handle ctx update)
      unfolding AntiLink.handle
      anti_link-exempt =
          Keeps-bind_ok _ message _ extracted (
            search (keeps, get_group-Untouched, check_link-exempt, Keeps-bind_ok, its_chat) depth
              16)

      check_words-exempt : Keeps (Untouched calls db) (Filters.check_words ctx message chat_id)
      unfolding Filters.check_words
      check_words-exempt = Keeps-bind_ok _ sender_id _ its_sender (is_admin_sender-exempt _)

      filters-exempt : Keeps (Untouched calls db) (Filters.handle ctx update)
      unfolding Filters.handle
      filters-exempt = Keeps-bind_ok _ message _ extracted (
          search (keeps, get_group-Untouched, check_words-exempt, Keeps-bind_ok, its_chat) depth 14)

-- Whatever an admin of the chat writes, the plugins against links, floods and bad words make no call
-- and change no table.
pub plugins_exempt :
    (ctx : Context) (update message chat_id sender_id : Value) (chat user : String) (w : World)
    → extract_message update ≡ ok message
    → get_chat_id message ≡ ok chat_id
    → get_sender_id message ≡ ok sender_id
    → truthy sender_id ≡ true
    → column chat_id ≡ ok chat
    → column sender_id ≡ ok user
    → Repository.is_admin chat user w.repo.db ≡ true
    → Untouched w.sent w.repo.db (AntiLink.handle ctx update w).1
      × Untouched w.sent w.repo.db (AntiFlood.handle ctx update w).1
      × Untouched w.sent w.repo.db (Filters.handle ctx update w).1
plugins_exempt ctx update message chat_id sender_id chat user w extracted c s has_sender chat_key
      user_key admin =
    let calls = w.sent in
    let db = w.repo.db in
    (
      (anti_link-exempt calls db chat_id sender_id chat user chat_key user_key has_sender admin ctx
            update message extracted c s).at'
          w (refl, refl),
      (anti_flood-exempt calls db chat_id sender_id chat user chat_key user_key has_sender admin ctx
            update message extracted c s).at'
          w (refl, refl),
      (filters-exempt calls db chat_id sender_id chat user chat_key user_key has_sender admin ctx
            update message extracted c s).at'
          w (refl, refl),
    )
