-- ===== src/Db/Messages/Recent.antt =====
-- `save_message` and `fetch_recent_message_ids`: what is saved is what is fetched, newest first.
use mathlib.Core.List.{reverse, reverse-append, append-nil}
use rubica_bot.Prelude.{
  ℕ, suc, ◌+◌, ◌<◌, ◌≡◌, ◌≢◌, refl, ap, ◌∙◌, String, Option, List, [], ◌∷◌, ◌++◌, str_eq,
  if◌then◌else◌, arith, Bool-cases, inl, inr,
}
use rubica_bot.Prelude.Lists.{keep, keep-append}
use rubica_bot.Db.Tables.{MessageRow, Db}
use rubica_bot.Db.Messages.{of_chat, save_message, newest, fetch_recent_message_ids}
use rubica_bot.Db.Messages.Selection.{All, Distinct, Distinct-append}

-- The ids of the rows are distinct and below the counter.
abbrev pub MessagesAreNumbered : Db → Type 0
MessagesAreNumbered db = Distinct db.messages × All (λ m. m.id < db.next_message) db.messages

below : (n : ℕ) (ms : List MessageRow) → All (λ m. m.id < n) ms → All (λ m. m.id ≢ n) ms
below n [] h = tt
below n (m ∷ ms) h = (λ e. ground (arith, h.0, e), below n ms h.1)

raised :
    (n : ℕ) (ms : List MessageRow) (x : MessageRow)
    → x.id ≡ n
    → All (λ m. m.id < n) ms
    → All (λ m. m.id < n + 1) (ms ++ x ∷ [])
raised n [] x e h = (omega (arith, e), tt)
raised n (m ∷ ms) x e h = (omega (arith, h.0), raised n ms x e h.1)

pub save_message-MessagesAreNumbered :
    (chat_id message_id : String) (sender_id text : Option String) (db : Db)
    → MessagesAreNumbered db
    → MessagesAreNumbered (save_message chat_id message_id sender_id text db)
unfolding save_message
save_message-MessagesAreNumbered chat_id message_id sender_id text db h = (
  Distinct-append db.messages _ h.0 (below db.next_message db.messages h.1),
  raised db.next_message db.messages _ refl h.1,
)

keep-snoc :
    (j : String) (ms : List MessageRow) (x : MessageRow)
    → reverse (keep (of_chat j) (ms ++ x ∷ [])) ≡ (
        if str_eq x.chat_id j
        then x ∷ reverse (keep (of_chat j) ms)
        else reverse (keep (of_chat j) ms))
unfolding keep
keep-snoc j ms x = elim (Bool-cases (str_eq x.chat_id j)) [
  | inl same ↦
      ap reverse (keep-append (of_chat j) ms (x ∷ []))
      ∙ rw same (reverse-append (keep (of_chat j) ms) (x ∷ []))
  | inr other ↦
      ap reverse (keep-append (of_chat j) ms (x ∷ []))
      ∙ rw other (ap reverse (append-nil (keep (of_chat j) ms)))
]

-- A saved message is the first that its own chat fetches, before the ones fetched so far, and other
-- chats fetch what they did.
pub fetch_recent_message_ids-save_message :
    (j chat_id message_id : String) (sender_id text : Option String) (limit : ℕ) (db : Db)
    → fetch_recent_message_ids j (suc limit) (save_message chat_id message_id sender_id text db) ≡ (
        if str_eq chat_id j
        then message_id ∷ fetch_recent_message_ids j limit db
        else fetch_recent_message_ids j (suc limit) db)
unfolding fetch_recent_message_ids newest save_message
fetch_recent_message_ids-save_message j chat_id message_id sender_id text limit db =
    elim (Bool-cases (str_eq chat_id j)) [
      | inl same ↦ rw (keep-snoc j db.messages _) (rw same refl)
      | inr other ↦ rw (keep-snoc j db.messages _) (rw other refl)
    ]
