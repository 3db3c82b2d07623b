-- ===== src/Db/Repository/Groups.antt =====
-- The group settings behind their cache: a coherent cache is never seen, every method keeps it
-- coherent, and what a flag's update makes of the settings that are read afterwards.
use rubica_bot.Prelude.{
  ℕ, ◌≡◌, refl, ◌∙◌, String, Bool, Option, none, some, List, [], ◌∷◌, str_eq, eq_iff, if◌then◌else◌,
  arith, Option-cases, inl, inr,
}
use rubica_bot.Utils.Cache
use mathlib.Core.Option
use rubica_bot.Utils.Cache.{Entry}
use rubica_bot.Utils.Cache.Contents.{set-All, get-All, invalidate-All_ne, get-hit}
use rubica_bot.Utils.Cache.Entries.{All, find-All}
use rubica_bot.Db.Tables.{GroupSettings, Db, default_group}
use rubica_bot.Db.Repository.{
  Repository, Flag, set_flag, select_group, upsert_title, update_flag, stored_group, get_group,
  get_group_from, upsert_group, set_group_flag,
}

-- A cached entry is what the tables say.
abbrev pub IsCurrent : Db → Entry GroupSettings → Type 0
IsCurrent db e = e.1.1 ≡ stored_group e.0 db

abbrev pub IsCoherent : Repository → Type 0
IsCoherent r = All (IsCurrent r.db) r.cache.entries

module _ (chat_id : String) (now : ℕ) where
  get_group_from-Coherent :
      (r : Repository) (o : Option GroupSettings)
      → IsCoherent r
      → IsCoherent (get_group_from chat_id now r o).1
  unfolding get_group_from
  get_group_from-Coherent r none h = set-All (IsCurrent r.db) r.cache chat_id now _ h refl
  get_group_from-Coherent r (some g) h = h

  -- Reading a group keeps the cache coherent.
  pub get_group-IsCoherent :
      (r : Repository) → IsCoherent r → IsCoherent (get_group chat_id now r).1
  unfolding get_group
  get_group-IsCoherent r h =
      get_group_from-Coherent (record r { cache = (Cache.get chat_id now r.cache).1 })
        (Cache.get chat_id now r.cache).0 (get-All (IsCurrent r.db) r.cache chat_id now h)

  pub db-get_group : (r : Repository) → (get_group chat_id now r).1.db ≡ r.db
  unfolding get_group get_group_from
  db-get_group r = ground arith

  -- With a coherent cache the settings that are read are those of the tables, whether they come from
  -- the cache or not.
  pub get_group-stored_group :
      (r : Repository) → IsCoherent r → (get_group chat_id now r).0 ≡ stored_group chat_id r.db
  unfolding get_group get_group_from
  get_group-stored_group r h = elim (Option-cases (Cache.get chat_id now r.cache).0) [
    | inl miss ↦ rw miss refl
    | inr (g, hit) ↦
        let (ts, found) = get-hit r.cache chat_id now g hit in
        rw hit (find-All (IsCurrent r.db) chat_id r.cache.entries (ts, g) h found)
  ]

chat_id-set_flag :
    (key : Flag) (value : Bool) (g : GroupSettings) → (set_flag key value g).chat_id ≡ g.chat_id
unfolding set_flag
chat_id-set_flag key value g = ground arith

-- What an update of one group leaves of the others.
select_group-update_flag :
    (chat_id j : String) (key : Flag) (value : Bool) (gs : List GroupSettings)
    → select_group j (update_flag chat_id key value gs) ≡ (
        if str_eq chat_id j
        then Option.map (set_flag key value) (select_group j gs)
        else select_group j gs)
unfolding select_group update_flag
select_group-update_flag chat_id j key value [] = ground arith
select_group-update_flag chat_id j key value (g ∷ gs) = ground (
  arith,
  select_group-update_flag chat_id j key value gs,
  chat_id-set_flag key value g,
  eq_iff g.chat_id chat_id,
  eq_iff g.chat_id j,
  eq_iff chat_id j,
)

-- The settings once a flag was set: those of the row with the flag, or the defaults without a row.
abbrev pub flagged : String → Flag → Bool → Option GroupSettings → GroupSettings
flagged chat_id key value none = default_group chat_id none
flagged chat_id key value (some g) = set_flag key value g

module _ (chat_id : String) (key : Flag) (value : Bool) (r : Repository) where
  stored_group-set_group_flag :
      (j : String)
      → stored_group j (set_group_flag chat_id key value r).db ≡ (
          if str_eq chat_id j
          then flagged j key value (select_group j r.db.groups)
          else stored_group j r.db)
  unfolding stored_group set_group_flag
  stored_group-set_group_flag j =
      ground (arith, select_group-update_flag chat_id j key value r.db.groups)

  pub set_group_flag-IsCoherent : IsCoherent r → IsCoherent (set_group_flag chat_id key value r)
  unfolding set_group_flag
  set_group_flag-IsCoherent h =
      invalidate-All_ne (IsCurrent r.db) _ r.cache chat_id
        (λ e other current. ground (
          arith,
          current,
          other,
          stored_group-set_group_flag e.0,
          eq_iff e.0 chat_id,
          eq_iff chat_id e.0,
        ))
        h

  -- After a flag is set, every group reads as the tables say: another group as before, the group itself
  -- with the flag if it has a row, and with the defaults, whatever the value, if it has none.
  pub get_group-set_group_flag :
      (j : String) (now : ℕ)
      → IsCoherent r
      → (get_group j now (set_group_flag chat_id key value r)).0 ≡ (
          if str_eq chat_id j
          then flagged j key value (select_group j r.db.groups)
          else stored_group j r.db)
  get_group-set_group_flag j now h =
      get_group-stored_group j now (set_group_flag chat_id key value r)
        (set_group_flag-IsCoherent h)
      ∙ stored_group-set_group_flag j

-- The title of a group is set, its other settings stay, and no other group changes.
abbrev pub titled : String → Option String → Option GroupSettings → GroupSettings
titled chat_id title none = default_group chat_id title
titled chat_id title (some g) = record g { title = title }

select_group-upsert_title :
    (chat_id j : String) (title : Option String) (gs : List GroupSettings)
    → select_group j (upsert_title chat_id title gs) ≡ (
        if str_eq chat_id j
        then some (titled chat_id title (select_group chat_id gs))
        else select_group j gs)
unfolding select_group upsert_title
select_group-upsert_title chat_id j title [] = refl
select_group-upsert_title chat_id j title (g ∷ gs) = ground (
  arith,
  select_group-upsert_title chat_id j title gs,
  eq_iff g.chat_id chat_id,
  eq_iff g.chat_id j,
  eq_iff chat_id j,
)

module _ (chat_id : String) (title : Option String) (now : ℕ) (r : Repository) where
  upserted : Repository
  upserted = record r {
    db = record r.db { groups = upsert_title chat_id title r.db.groups };
    cache = Cache.invalidate chat_id r.cache;
  }

  upserted-IsCoherent : IsCoherent r → IsCoherent upserted
  unfolding upserted stored_group
  upserted-IsCoherent h =
      invalidate-All_ne (IsCurrent r.db) _ r.cache chat_id
        (λ e other current. ground (
          arith,
          current,
          other,
          select_group-upsert_title chat_id e.0 title r.db.groups,
          eq_iff e.0 chat_id,
          eq_iff chat_id e.0,
        ))
        h

  -- `upsert_group` returns the group's settings with the new title, and keeps the cache coherent.
  pub upsert_group_lem :
      IsCoherent r
      → ((upsert_group chat_id title now r).0
          ≡ titled chat_id title (select_group chat_id r.db.groups))
        × IsCoherent (upsert_group chat_id title now r).1
  unfolding upsert_group upserted
  upsert_group_lem h = (
    get_group-stored_group chat_id now upserted (upserted-IsCoherent h)
        ∙ (unfold stored_group in
            ground (
              arith,
              select_group-upsert_title chat_id chat_id title r.db.groups,
              eq_iff chat_id chat_id,
            )),
    get_group-IsCoherent chat_id now upserted (upserted-IsCoherent h),
  )
