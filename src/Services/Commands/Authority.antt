-- ===== src/Services/Commands/Authority.antt =====
-- Who may run a command of admins.
use rubica_bot.Prelude.{
  String, true, false, ◌≡◌, refl, ap, ◌∙◌, some, List, [], ◌∷◌, ◌++◌, Bool-cases, inl, inr,
}
use rubica_bot.Prelude.Text.{starts_with}
use rubica_bot.Result.{Result, ok, raise}
use rubica_bot.Json.{Value, str, null, truthy}
use rubica_bot.Utils.Message.{extract_message, get_chat_id, get_sender_id, get_text}
use rubica_bot.Core.Client.Calls.{send_message}
use rubica_bot.Db.Tables.{column}
use rubica_bot.Db.Repository
use rubica_bot.Services.Texts.{admins_only}
use rubica_bot.Services.Action.{World, next, ◌>>=◌, return, lift, from_db, ask}
use rubica_bot.Services.Context.{Context, request, is_admin, text_of}
use rubica_bot.Services.Commands.{
  Command, get, words, command_name, is_owner, refuses, run_command, handle,
}

-- What is made of an answer leaves the world alone.
then_world : {A B : Type 0} (r : Result A) (b : B) (w : World) → (next (λ _. return b) (r, w)).1 ≡ w
unfolding return
then_world (ok a) b w = refl
then_world (raise e) b w = refl

module _ (registry : List Command) (ctx : Context) (update message : Value) (text word : String)
    (args : List String) (command : Command) (extracted : extract_message update ≡ ok message)
    (is_there : truthy message ≡ true) (its_text : get_text message ≡ ok (str text))
    (not_empty : truthy (str text) ≡ true) (slash : starts_with text "/" ≡ true)
    (its_words : words text ≡ ok (word, args))
    (found : get (command_name word) registry ≡ some command) where
  handle-run :
      (w : World) → handle registry ctx update w ≡ run_command ctx message args (some command) w
  unfolding handle ◌>>=◌ lift return text_of
  handle-run w = rw (extracted, is_there, its_text, not_empty, slash, its_words, found) refl

  -- A command of admins in an update that names a chat and a sender, neither of them an empty
  -- value: if the sender is neither an admin of the chat nor the owner, it is answered with the
  -- refusal, and nothing else of the world changes.
  pub handle_refused :
      (chat_id sender_id : Value) (chat user : String) (w : World)
      → command.admin_only ≡ true
      → get_chat_id message ≡ ok chat_id
      → get_sender_id message ≡ ok sender_id
      → truthy chat_id ≡ true
      → truthy sender_id ≡ true
      → column chat_id ≡ ok chat
      → column sender_id ≡ ok user
      → is_owner sender_id ctx.owner_id ≡ false
      → Repository.is_admin chat user w.repo.db ≡ false
      → (handle registry ctx update w).1
        ≡ record w { sent = w.sent ++ send_message chat_id admins_only null null ∷ [] }
  unfolding run_command refuses is_admin request ask ◌>>=◌ lift return from_db
  handle_refused chat_id sender_id chat user w only c s has_chat has_sender chat_key user_key other
        no_admin =
      ap (λ r. r.1) (handle-run w)
      ∙ rw (c, s, only, has_chat, has_sender, other, chat_key, user_key, no_admin)
          (then_world (ctx.library.reply w.sent (send_message chat_id admins_only null null)) true
            _)

  -- The right is not asked for where the update names no sender: then the handler runs.
  pub handle_anonymous :
      (chat_id sender_id : Value) (w : World)
      → get_chat_id message ≡ ok chat_id
      → get_sender_id message ≡ ok sender_id
      → truthy sender_id ≡ false
      → handle registry ctx update w ≡ (command.handler ctx message args >>= λ _. return true) w
  unfolding run_command refuses ◌>>=◌ lift return
  handle_anonymous chat_id sender_id w c s no_sender =
      handle-run w
      ∙ rw (c, s, no_sender)
          (elim (Bool-cases command.admin_only) [
            | inr all ↦ rw all refl
            | inl only ↦ elim (Bool-cases (truthy chat_id)) [
              | inl has_chat ↦ rw (only, has_chat) refl
              | inr no_chat ↦ rw (only, no_chat) refl
            ]
          ])
