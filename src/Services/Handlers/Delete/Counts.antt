-- ===== src/Services/Handlers/Delete/Counts.antt =====
-- `/del n` deletes the newest messages of the chat, each once, and counts every one of them as deleted
-- or as failed by its own reply.
use mathlib.Core.List.{append_assoc, append-nil}
use mathlib.Core.Path.{subst}
use rubica_bot.Prelude.{
  ℕ, ◌+◌, ◌≤◌, ◌≡◌, refl, ap, sym, ◌∙◌, String, Bool, true, false, some, List, [], ◌∷◌, ◌++◌, map,
  ◌==◌, arith, if◌then◌else◌,
}
use rubica_bot.Prelude.Int.{ℤ}
use rubica_bot.Prelude.Lists.{length, take, length-take-le}
use rubica_bot.Prelude.Text.{◌<+>◌, show_ℕ}
use rubica_bot.Result.{Result, ok, raise}
use rubica_bot.Json.{Value, str, null, truthy}
use rubica_bot.Utils.Message.{get_chat_id}
use rubica_bot.Core.Client.Calls.{Call, delete_message, send_message}
use rubica_bot.Db.Tables.{MessageRow, Db, column}
use rubica_bot.Db.Messages.{newest, fetch_recent_message_ids}
use rubica_bot.Services.Texts.{deleted_label, failed_label}
use rubica_bot.Services.Action.{World, next, ◌>>=◌, return, lift, from_db, ask}
use rubica_bot.Services.Context.{Context, request}
use rubica_bot.Services.Handlers.Info.{in_chat, reply}
use rubica_bot.Services.Handlers.Delete.{
  is_deleted, delete_all, counts, clamp, limit_of, delete_ids, delete_recent, delete_handler,
}

abbrev pub deletions : Value → List String → List Call
deletions chat_id ids = map (λ (i : String). delete_message chat_id (str i)) ids

-- One step of the two counts.
tally_deleted :
    (good : Bool) (d n : ℕ) → (if good then d + 1 else d) + n ≡ d + ((if good then 1 else 0) + n)
tally_deleted true d n = omega arith
tally_deleted false d n = omega arith

tally_failed :
    (good : Bool) (f n : ℕ) → (if good then f else f + 1) + n ≡ f + ((if good then 0 else 1) + n)
tally_failed true f n = omega arith
tally_failed false f n = omega arith

sent_only : (r : Result Value) (w : World) → (next (λ _. return tt) (r, w)).1 ≡ w
unfolding return
sent_only (ok v) w = refl
sent_only (raise e) w = refl

reply-world :
    (ctx : Context) (chat_id : Value) (text : String) (w : World)
    → (reply ctx chat_id text w).1
      ≡ record w { sent = w.sent ++ send_message chat_id text null null ∷ [] }
unfolding reply request ask ◌>>=◌
reply-world ctx chat_id text w =
    sent_only (ctx.library.reply w.sent (send_message chat_id text null null)) _

module _ (ctx : Context) (chat_id : Value) where
  delete_all-sent :
      (ids : List String) (deleted failed : ℕ) (w : World)
      → (delete_all ctx chat_id ids deleted failed w).1.sent ≡ w.sent ++ deletions chat_id ids
  unfolding delete_all request ask
  delete_all-sent [] deleted failed w = sym (append-nil w.sent)
  delete_all-sent (id ∷ ids) deleted failed w =
      delete_all-sent ids _ _ _
      ∙ append_assoc w.sent (delete_message chat_id (str id) ∷ []) (deletions chat_id ids)

  -- Of the deletions of the ids, made one after the other when the calls of `before` have been
  -- made, the number of those whose reply counts as a deletion, and the number of the others.
  pub succeeding : List Call → List String → ℕ
  succeeding before [] = 0
  succeeding before (id ∷ ids) =
      let call = delete_message chat_id (str id) in
      (if is_deleted (ctx.library.reply before call) then 1 else 0)
      + succeeding (before ++ call ∷ []) ids

  pub failing : List Call → List String → ℕ
  failing before [] = 0
  failing before (id ∷ ids) =
      let call = delete_message chat_id (str id) in
      (if is_deleted (ctx.library.reply before call) then 0 else 1)
      + failing (before ++ call ∷ []) ids

  delete_all-deleted :
      (ids : List String) (deleted failed : ℕ) (w : World)
      → (delete_all ctx chat_id ids deleted failed w).0.0 ≡ deleted + succeeding w.sent ids
  unfolding delete_all succeeding request ask
  delete_all-deleted [] deleted failed w = omega arith
  delete_all-deleted (id ∷ ids) deleted failed w =
      delete_all-deleted ids _ _ _
      ∙ tally_deleted (is_deleted (ctx.library.reply w.sent (delete_message chat_id (str id))))
          deleted (succeeding (w.sent ++ delete_message chat_id (str id) ∷ []) ids)

  delete_all-failed :
      (ids : List String) (deleted failed : ℕ) (w : World)
      → (delete_all ctx chat_id ids deleted failed w).0.1 ≡ failed + failing w.sent ids
  unfolding delete_all failing request ask
  delete_all-failed [] deleted failed w = omega arith
  delete_all-failed (id ∷ ids) deleted failed w =
      delete_all-failed ids _ _ _
      ∙ tally_failed (is_deleted (ctx.library.reply w.sent (delete_message chat_id (str id))))
          failed (failing (w.sent ++ delete_message chat_id (str id) ∷ []) ids)

  one_of_two :
      (good : Bool) (a b n : ℕ)
      → a + b ≡ n
      → (if good then 1 else 0) + a + ((if good then 0 else 1) + b) ≡ n + 1
  one_of_two true a b n h = omega arith
  one_of_two false a b n h = omega arith

  succeeding-failing :
      (before : List Call) (ids : List String)
      → succeeding before ids + failing before ids ≡ length ids
  unfolding succeeding failing
  succeeding-failing before [] = omega arith
  succeeding-failing before (id ∷ ids) =
      let call = delete_message chat_id (str id) in
      one_of_two (is_deleted (ctx.library.reply before call)) _ _ (length ids)
        (succeeding-failing (before ++ call ∷ []) ids)
      ∙ omega arith

  abbrev pub report : ℕ → ℕ → Call
  report deleted failed =
      send_message chat_id (deleted_label <+> show_ℕ deleted <+> failed_label <+> show_ℕ failed)
        null null

  -- What `/del` sent: the deletions and a report of how many of them succeeded and how many failed.
  abbrev pub Reports : List String → List Call → World → Type 0
  Reports ids before w =
      (w.sent
        ≡ before
          ++ deletions chat_id ids
          ++ report (succeeding before ids) (failing before ids) ∷ [])
      × (succeeding before ids + failing before ids ≡ length ids)

  delete_ids-Reports :
      (id : String) (ids : List String) (w : World)
      → Reports (id ∷ ids) w.sent (delete_ids ctx chat_id (id ∷ ids) w).1
  unfolding delete_ids counts ◌>>=◌
  delete_ids-Reports id ids w =
      let r = delete_all ctx chat_id (id ∷ ids) 0 0 w in
      let good : r.0.0 ≡ succeeding w.sent (id ∷ ids) =
        delete_all-deleted (id ∷ ids) 0 0 w ∙ omega arith in
      let bad : r.0.1 ≡ failing w.sent (id ∷ ids) =
        delete_all-failed (id ∷ ids) 0 0 w ∙ omega arith in
      (
        ap (λ v. v.sent) (reply-world ctx chat_id _ r.1)
            ∙ ap (λ l. l ++ report r.0.0 r.0.1 ∷ []) (delete_all-sent (id ∷ ids) 0 0 w)
            ∙ ap (λ d. w.sent ++ deletions chat_id (id ∷ ids) ++ report d r.0.1 ∷ []) good
            ∙ ap
                (λ f.
                  w.sent
                  ++ deletions chat_id (id ∷ ids)
                  ++ report (succeeding w.sent (id ∷ ids)) f ∷ [])
                bad,
        succeeding-failing w.sent (id ∷ ids),
      )

length-map : (f : MessageRow → String) (l : List MessageRow) → length (map f l) ≡ length l
length-map f [] = refl
length-map f (m ∷ l) = omega (arith, length-map f l)

fetched_length :
    (chat : String) (n : ℤ) (db : Db) → length (fetch_recent_message_ids chat (clamp n) db) ≤ 10000
unfolding fetch_recent_message_ids clamp
fetched_length chat n db = omega (
  arith,
  length-map (λ m. m.message_id) (take (clamp n) (newest chat db)),
  length-take-le {0} (clamp n) (newest chat db),
)

-- `/del` with a number greater than 0, in a chat whose messages are logged: it deletes the newest
-- messages, as many as the number says but at most 10000, each with one call and in order, and then
-- reports the number of calls whose own reply counts as a deletion and the number of the other calls,
-- which together are the number of calls.
pub delete_handler_lem :
    (ctx : Context) (message chat_id : Value) (args : List String) (n : ℤ) (chat id : String)
    (ids : List String) (w : World)
    → get_chat_id message ≡ ok chat_id
    → truthy chat_id ≡ true
    → column chat_id ≡ ok chat
    → limit_of args ≡ some n
    → (clamp n == 0) ≡ false
    → fetch_recent_message_ids chat (clamp n) w.repo.db ≡ id ∷ ids
    → Reports ctx chat_id (id ∷ ids) w.sent (delete_handler ctx message args w).1
      × (length (id ∷ ids) ≤ 10000)
unfolding delete_handler in_chat delete_recent ◌>>=◌ lift from_db return
delete_handler_lem ctx message chat_id args n chat id ids w c has_chat key limit positive fetched =
    let short : length (fetch_recent_message_ids chat (clamp n) w.repo.db) ≤ 10000 =
      fetched_length chat n w.repo.db in
    (
      subst (λ v. Reports ctx chat_id (id ∷ ids) w.sent v.1) (sym run)
          (delete_ids-Reports ctx chat_id id ids w),
      subst (λ l. length l ≤ 10000) fetched short,
    )
  where
    run : delete_handler ctx message args w ≡ delete_ids ctx chat_id (id ∷ ids) w
    run = rw (c, has_chat, limit, positive, key, fetched) refl
