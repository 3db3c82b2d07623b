-- ===== src/Db/Messages/Upserts.antt =====
-- Filters and settings: what a write does to every later read.
use rubica_bot.Prelude.{
  ◌≡◌, refl, ap, sym, ◌∙◌, String, Bool, not, ◌&&◌, ◌||◌, some, List, [], ◌∷◌, map, str_eq, eq_iff,
  if◌then◌else◌, arith,
}
use rubica_bot.Prelude.Lists.{keep, any}
use rubica_bot.Db.Tables.{FilterRow, AdminRow, Db}
use rubica_bot.Db.Repository.{
  is_row, upsert_admin, add_admin, is_admin, is_filter, upsert_filter, add_filter, remove_filter,
}
use rubica_bot.Db.Messages.{
  upsert_setting, set_setting, select_setting, get_setting, insert_by_word, order_by_word,
  list_filters, Filter, to_filter,
}

select-upsert_setting :
    (j key value : String) (l : List (String × String))
    → select_setting j (upsert_setting key value l)
      ≡ (if str_eq key j then some value else select_setting j l)
unfolding select_setting upsert_setting
select-upsert_setting j key value [] = refl
select-upsert_setting j key value ((k, v) ∷ l) =
    ground (arith, eq_iff k key, eq_iff k j, eq_iff key j, select-upsert_setting j key value l)

-- `get_setting` reads the last value that `set_setting` wrote under the key, and a write under another
-- key changes nothing for it.
pub get-set_setting :
    (j key value : String) (db : Db)
    → get_setting j (set_setting key value db)
      ≡ (if str_eq key j then some value else get_setting j db)
unfolding get_setting set_setting
get-set_setting j key value db = select-upsert_setting j key value db.settings

any-upsert_admin :
    (c u chat_id user_id role : String) (l : List AdminRow)
    → any (is_row c u) (upsert_admin chat_id user_id role l)
      ≡ ((str_eq chat_id c && str_eq user_id u) || any (is_row c u) l)
unfolding any upsert_admin
any-upsert_admin c u chat_id user_id role [] = refl
any-upsert_admin c u chat_id user_id role (a ∷ l) = ground (
  arith,
  eq_iff a.chat_id chat_id,
  eq_iff a.user_id user_id,
  any-upsert_admin c u chat_id user_id role l,
)

-- `add_admin` makes the user an admin of the chat, and nobody else.
pub is_admin-add_admin :
    (c u chat_id user_id role : String) (db : Db)
    → is_admin c u (add_admin chat_id user_id role db)
      ≡ ((str_eq chat_id c && str_eq user_id u) || is_admin c u db)
unfolding is_admin add_admin
is_admin-add_admin c u chat_id user_id role db = any-upsert_admin c u chat_id user_id role db.admins

module _ (p : FilterRow → Bool) where
  any-insert_by_word :
      (f : FilterRow) (l : List FilterRow) → any p (insert_by_word f l) ≡ (p f || any p l)
  unfolding any insert_by_word
  any-insert_by_word f [] = refl
  any-insert_by_word f (g ∷ l) = ground (arith, any-insert_by_word f l)

  any-order_by_word : (l : List FilterRow) → any p (order_by_word l) ≡ any p l
  unfolding any order_by_word
  any-order_by_word [] = refl
  any-order_by_word (f ∷ l) =
      any-insert_by_word f (order_by_word l) ∙ ap (λ b. p f || b) (any-order_by_word l)

any-keep {ℓ} :
    {A : Type ℓ} (p q : A → Bool) (l : List A) → any p (keep q l) ≡ any (λ x. q x && p x) l
unfolding any keep
any-keep p q [] = refl
any-keep p q (x ∷ l) = ground (arith, any-keep p q l)

abbrev has_word : String → Filter → Bool
has_word word f = str_eq f.word word

-- The chat has a filter on the word.
unfoldable pub lists : String → String → Db → Bool
unfolding any
lists chat_id word db = any (has_word word) (list_filters chat_id db)

any-to_filter :
    (word : String) (l : List FilterRow)
    → any (has_word word) (map to_filter l) ≡ any (λ (f : FilterRow). str_eq f.word word) l
unfolding any
any-to_filter word [] = refl
any-to_filter word (f ∷ l) = ap (λ b. str_eq f.word word || b) (any-to_filter word l)

-- A filter is listed when the table has its row.
lists_row : (c w : String) (db : Db) → lists c w db ≡ any (is_filter c w) db.filters
unfolding lists list_filters
lists_row c w db =
    let of_chat = keep (λ (f : FilterRow). str_eq f.chat_id c) db.filters in
    any-to_filter w (order_by_word of_chat)
    ∙ any-order_by_word (λ f. str_eq f.word w) of_chat
    ∙ any-keep (λ f. str_eq f.word w) (λ f. str_eq f.chat_id c) db.filters

any-upsert_filter :
    (c w chat_id word : String) (white regex : Bool) (l : List FilterRow)
    → any (is_filter c w) (upsert_filter chat_id word white regex l)
      ≡ ((str_eq chat_id c && str_eq word w) || any (is_filter c w) l)
unfolding any upsert_filter
any-upsert_filter c w chat_id word white regex [] = refl
any-upsert_filter c w chat_id word white regex (f ∷ l) = ground (
  arith,
  eq_iff f.chat_id chat_id,
  eq_iff f.word word,
  any-upsert_filter c w chat_id word white regex l,
)

any-remove_filter :
    (c w chat_id word : String) (l : List FilterRow)
    → any (is_filter c w) (keep (λ f. not (is_filter chat_id word f)) l)
      ≡ (not (str_eq chat_id c && str_eq word w) && any (is_filter c w) l)
unfolding any keep
any-remove_filter c w chat_id word [] = ground arith
any-remove_filter c w chat_id word (f ∷ l) = ground (
  arith,
  eq_iff f.chat_id chat_id,
  eq_iff f.word word,
  eq_iff f.chat_id c,
  eq_iff f.word w,
  eq_iff chat_id c,
  eq_iff word w,
  any-remove_filter c w chat_id word l,
)

-- `list_filters` shows a word of a chat after `add_filter` when it is the one added or was shown
-- before, and after `remove_filter` when it was shown before and is not the one removed.
pub list_filters_lem :
    (c w chat_id word : String) (white regex : Bool) (db : Db)
    → (lists c w (add_filter chat_id word white regex db)
        ≡ ((str_eq chat_id c && str_eq word w) || lists c w db))
      × (lists c w (remove_filter chat_id word db)
          ≡ (not (str_eq chat_id c && str_eq word w) && lists c w db))
unfolding add_filter remove_filter
list_filters_lem c w chat_id word white regex db = (
  lists_row c w (add_filter chat_id word white regex db)
      ∙ any-upsert_filter c w chat_id word white regex db.filters
      ∙ ap (λ b. (str_eq chat_id c && str_eq word w) || b) (sym (lists_row c w db)),
  lists_row c w (remove_filter chat_id word db)
      ∙ any-remove_filter c w chat_id word db.filters
      ∙ ap (λ b. not (str_eq chat_id c && str_eq word w) && b) (sym (lists_row c w db)),
)
