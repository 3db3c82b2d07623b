-- ===== src/Db/Repository.antt =====
-- app/db/repository.py: `Repository`. Each method is one transaction on the tables; the group cache
-- stands beside them. `now` is what `time.monotonic()` returns, `wall` what `time.time()` does.
-- `_connect` and the PRAGMAs are SQLite's own. The program sets only the five flags of a group.
pub mod Groups
use rubica_bot.Prelude.{
  ℕ, zero, suc, ◌+◌, ◌-◌, String, Bool, true, false, not, ◌&&◌, ◌||◌, Option, none, some, List, [],
  ◌∷◌, ◌++◌, map, ltb, str_eq, if◌then◌else◌, ◌==◌,
}
use mathlib.Core.List.{reverse}
use rubica_bot.Prelude.Lists.{length, take, keep, any}
use rubica_bot.Utils.Cache
use rubica_bot.Utils.Cache.{LruTtlCache}
use rubica_bot.Db.Tables.{
  GroupSettings, AdminRow, FilterRow, MessageRow, UpdateRow, Db, default_group,
}

pub record Repository : Type 0 where
  pub db : Db
  pub cache : LruTtlCache GroupSettings

abbrev pub empty_db : Db
empty_db = record {
  groups = [];
  admins = [];
  filters = [];
  messages = [];
  next_message = 1;
  incoming_updates = [];
  next_update = 1;
  settings = [];
}

-- The five columns that `set_group_flag` is called with or may be.
pub data Flag : Type 0 where
  anti_link anti_flood anti_spam anti_badwords anti_forward : Flag

unfoldable pub set_flag : Flag → Bool → GroupSettings → GroupSettings
set_flag anti_link value g = record g { anti_link = value }
set_flag anti_flood value g = record g { anti_flood = value }
set_flag anti_spam value g = record g { anti_spam = value }
set_flag anti_badwords value g = record g { anti_badwords = value }
set_flag anti_forward value g = record g { anti_forward = value }

-- SELECT * FROM groups WHERE chat_id = ?
unfoldable pub select_group : String → List GroupSettings → Option GroupSettings
select_group chat_id [] = none
select_group chat_id (g ∷ gs) = if str_eq g.chat_id chat_id then some g else select_group chat_id gs

-- INSERT INTO groups … ON CONFLICT(chat_id) DO UPDATE SET title = excluded.title
unfoldable pub upsert_title : String → Option String → List GroupSettings → List GroupSettings
upsert_title chat_id title [] = default_group chat_id title ∷ []
upsert_title chat_id title (g ∷ gs) =
    if str_eq g.chat_id chat_id
    then record g { title = title } ∷ gs
    else g ∷ upsert_title chat_id title gs

-- UPDATE groups SET {key} = ? WHERE chat_id = ?
unfoldable pub update_flag : String → Flag → Bool → List GroupSettings → List GroupSettings
unfolding set_flag
update_flag chat_id key value =
    map (λ g. if str_eq g.chat_id chat_id then set_flag key value g else g)

-- The settings that the tables give a group, with those of a group without a row.
unfoldable pub stored_group : String → Db → GroupSettings
unfolding select_group
stored_group chat_id db = elim (select_group chat_id db.groups) [
  | none ↦ default_group chat_id none
  | some g ↦ g
]

unfoldable pub get_group_from :
    String → ℕ → Repository → Option GroupSettings → GroupSettings × Repository
unfolding stored_group
get_group_from chat_id now r (some cached) = (cached, r)
get_group_from chat_id now r none =
    let settings = stored_group chat_id r.db in
    (settings, record r { cache = Cache.set chat_id settings now r.cache })

unfoldable pub get_group : String → ℕ → Repository → GroupSettings × Repository
unfolding get_group_from
get_group chat_id now r =
    let answer = Cache.get chat_id now r.cache in
    get_group_from chat_id now (record r { cache = answer.1 }) answer.0

unfoldable pub upsert_group : String → Option String → ℕ → Repository → GroupSettings × Repository
unfolding upsert_title
upsert_group chat_id title now r = get_group chat_id now (record r {
  db = record r.db { groups = upsert_title chat_id title r.db.groups };
  cache = Cache.invalidate chat_id r.cache;
})

unfoldable pub set_group_flag : String → Flag → Bool → Repository → Repository
unfolding update_flag
set_group_flag chat_id key value r = record r {
  db = record r.db { groups = update_flag chat_id key value r.db.groups };
  cache = Cache.invalidate chat_id r.cache;
}

abbrev pub is_row : String → String → AdminRow → Bool
is_row chat_id user_id a = str_eq a.chat_id chat_id && str_eq a.user_id user_id

unfoldable pub upsert_admin : String → String → String → List AdminRow → List AdminRow
upsert_admin chat_id user_id role [] =
    record { chat_id = chat_id; user_id = user_id; role = role } ∷ []
upsert_admin chat_id user_id role (a ∷ as') =
    if is_row chat_id user_id a
    then record a { role = role } ∷ as'
    else a ∷ upsert_admin chat_id user_id role as'

unfoldable pub add_admin : String → String → String → Db → Db
unfolding upsert_admin
add_admin chat_id user_id role db = record db {
  admins = upsert_admin chat_id user_id role db.admins;
}

unfoldable pub is_admin : String → String → Db → Bool
unfolding any
is_admin chat_id user_id db = any (is_row chat_id user_id) db.admins

unfoldable pub count_admins : String → Db → ℕ
unfolding keep
count_admins chat_id db = length (keep (λ (a : AdminRow). str_eq a.chat_id chat_id) db.admins)

abbrev pub is_filter : String → String → FilterRow → Bool
is_filter chat_id word f = str_eq f.chat_id chat_id && str_eq f.word word

unfoldable pub upsert_filter : String → String → Bool → Bool → List FilterRow → List FilterRow
upsert_filter chat_id word white regex [] =
    record { chat_id = chat_id; word = word; is_whitelist = white; regex_enabled = regex } ∷ []
upsert_filter chat_id word white regex (f ∷ fs) =
    if is_filter chat_id word f
    then record f { is_whitelist = white; regex_enabled = regex } ∷ fs
    else f ∷ upsert_filter chat_id word white regex fs

unfoldable pub add_filter : String → String → Bool → Bool → Db → Db
unfolding upsert_filter
add_filter chat_id word is_whitelist regex_enabled db = record db {
  filters = upsert_filter chat_id word is_whitelist regex_enabled db.filters;
}

unfoldable pub remove_filter : String → String → Db → Db
unfolding keep
remove_filter chat_id word db = record db {
  filters = keep (λ f. not (is_filter chat_id word f)) db.filters;
}
