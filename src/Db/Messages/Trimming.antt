-- ===== src/Db/Messages/Trimming.antt =====
-- `trim_messages_per_chat`: every chat keeps exactly its newest messages, and the count is right.
use mathlib.Core.List.{reverse}
use rubica_bot.Prelude.{
  ℕ, zero, suc, ◌+◌, ◌≡◌, refl, ap, ◌∙◌, sym, String, Bool, true, false, not, ◌&&◌, List, [], ◌∷◌,
  str_eq, eq_iff, if◌then◌else◌, arith, Bool-cases, inl, inr,
}
use rubica_bot.Prelude.Lists.{length, take, keep, any, length-keep-le}
use rubica_bot.Db.Tables.{MessageRow, Db}
use rubica_bot.Db.Messages.{
  of_chat, newest, newest_ids, trim_chat, trim_chats, distinct_chats, trim_messages_per_chat,
}
use rubica_bot.Db.Messages.Selection.{
  All, Distinct, Distinct-reverse, Distinct-keep, keep-reverse, keep-keep, keep-congr, take-take,
  is_in, keep-is_in-take,
}

-- The rows that the DELETE of one chat leaves.
abbrev survives : String → ℕ → Db → MessageRow → Bool
survives chat_id limit db m = not (of_chat chat_id m && not (is_in (newest_ids chat_id limit db) m))

All-true {ℓ} : {A : Type ℓ} (P : A → Type 0) (xs : List A) → ((x : A) → P x) → All P xs
All-true P [] h = tt
All-true P (x ∷ xs) h = (h x, All-true P xs h)

module _ (chat_id : String) (limit : ℕ) (db : Db) where
  -- The rows of the chat that survive are those whose id is among the newest.
  survivors_of_chat :
      keep (of_chat chat_id) (keep (survives chat_id limit db) db.messages)
      ≡ keep (is_in (newest_ids chat_id limit db)) (keep (of_chat chat_id) db.messages)
  survivors_of_chat =
      keep-keep (of_chat chat_id) (survives chat_id limit db) db.messages
      ∙ keep-congr _ _ db.messages (All-true _ db.messages λ m. ground arith)
      ∙ sym (keep-keep (is_in (newest_ids chat_id limit db)) (of_chat chat_id) db.messages)

  newest-trim_chat_self :
      Distinct db.messages
      → newest chat_id (trim_chat chat_id limit db).1 ≡ take limit (newest chat_id db)
  unfolding newest trim_chat newest_ids
  newest-trim_chat_self d =
      let rows = keep (of_chat chat_id) db.messages in
      let ids = newest_ids chat_id limit db in
      ap reverse survivors_of_chat
      ∙ sym (keep-reverse (is_in ids) rows)
      ∙ keep-is_in-take limit (reverse rows) (Distinct-reverse rows (Distinct-keep _ db.messages d))

  newest-trim_chat_ne :
      (j : String)
      → str_eq chat_id j ≡ false
      → newest j (trim_chat chat_id limit db).1 ≡ newest j db
  unfolding newest trim_chat
  newest-trim_chat_ne j other = ap reverse (
      keep-keep (of_chat j) (survives chat_id limit db) db.messages
      ∙ keep-congr _ _ db.messages (
          All-true _ db.messages λ m.
            ground (arith, other, eq_iff m.chat_id chat_id, eq_iff m.chat_id j, eq_iff chat_id j)))

  trim_chat-Distinct : Distinct db.messages → Distinct (trim_chat chat_id limit db).1.messages
  unfolding trim_chat
  trim_chat-Distinct d = Distinct-keep _ db.messages d

  -- The count is the number of rows that are gone.
  trim_chat_count :
      (trim_chat chat_id limit db).0 + length (trim_chat chat_id limit db).1.messages
      ≡ length db.messages
  unfolding trim_chat
  trim_chat_count = omega (arith, length-keep-le {0} (survives chat_id limit db) db.messages)

abbrev trimmed : Bool → ℕ → List MessageRow → List MessageRow
trimmed b limit rows = if b then take limit rows else rows

newest-trim_chats :
    (j : String) (limit : ℕ) (chats : List String) (db : Db)
    → Distinct db.messages
    → newest j (trim_chats limit chats db).1 ≡ trimmed (any (str_eq j) chats) limit (newest j db)
unfolding trim_chats any
newest-trim_chats j limit [] db d = refl
newest-trim_chats j limit (chat_id ∷ chats) db d = ground (
  arith,
  eq_iff j chat_id,
  eq_iff chat_id j,
  eq_iff j j,
  newest-trim_chat_self chat_id limit db d,
  newest-trim_chat_ne chat_id limit db j,
  newest-trim_chats j limit chats (trim_chat chat_id limit db).1
      (trim_chat-Distinct chat_id limit db d),
  take-take {0} limit (newest j db),
)

trim_chats_count :
    (limit : ℕ) (chats : List String) (db : Db)
    → (trim_chats limit chats db).0 + length (trim_chats limit chats db).1.messages
      ≡ length db.messages
unfolding trim_chats
trim_chats_count limit [] db = omega arith
trim_chats_count limit (chat_id ∷ chats) db = omega (
  arith,
  trim_chat_count chat_id limit db,
  trim_chats_count limit chats (trim_chat chat_id limit db).1,
)

any_eq :
    (j k : String) (l : List String)
    → any (str_eq j) l ≡ false
    → any (str_eq k) l ≡ true
    → str_eq k j ≡ false
unfolding any
any_eq j k [] h g = ground arith
any_eq j k (x ∷ l) h g = ground (arith, eq_iff k j, eq_iff k x, eq_iff j x, any_eq j k l)

-- A chat that is neither known nor listed has no row.
unlisted :
    (j : String) (found : List String) (ms : List MessageRow)
    → any (str_eq j) found ≡ false
    → any (str_eq j) (distinct_chats found ms) ≡ false
    → keep (of_chat j) ms ≡ []
unfolding distinct_chats any keep
unlisted j found [] h g = refl
unlisted j found (m ∷ ms) h g = ground (
  arith,
  any_eq j m.chat_id found h,
  eq_iff j m.chat_id,
  eq_iff m.chat_id j,
  unlisted j found ms h,
  unlisted j (m.chat_id ∷ found) ms,
)

take-nil {ℓ} : {A : Type ℓ} (n : ℕ) → take {A = A} n [] ≡ []
take-nil zero = refl
take-nil (suc n) = refl

-- A chat that is not listed has no newest rows to cut.
trimmed_all :
    (j : String) (limit : ℕ) (db : Db)
    → trimmed (any (str_eq j) (distinct_chats [] db.messages)) limit (newest j db)
      ≡ take limit (newest j db)
unfolding newest any
trimmed_all j limit db = elim (Bool-cases (any (str_eq j) (distinct_chats [] db.messages))) [
  | inl listed ↦ rw listed refl
  | inr absent ↦
      let empty : newest j db ≡ [] = none_newest j db (unlisted j [] db.messages refl absent) in
      rw absent (rw empty (sym (take-nil limit)))
]
  where
    none_newest : (j : String) (db : Db) → keep (of_chat j) db.messages ≡ [] → newest j db ≡ []
    none_newest j db e = ap reverse e

-- After a trim each chat has exactly its newest `limit` messages, and the trim returns the number of
-- the rows that are gone.
pub trim_messages_per_chat_lem :
    (limit : ℕ) (db : Db)
    → Distinct db.messages
    → ((j : String) → newest j (trim_messages_per_chat limit db).1 ≡ take limit (newest j db))
      × ((trim_messages_per_chat limit db).0 + length (trim_messages_per_chat limit db).1.messages
          ≡ length db.messages)
unfolding trim_messages_per_chat
trim_messages_per_chat_lem limit db d =
    let chats = distinct_chats [] db.messages in
    (
      λ j. newest-trim_chats j limit chats db d ∙ trimmed_all j limit db,
      trim_chats_count limit chats db,
    )
