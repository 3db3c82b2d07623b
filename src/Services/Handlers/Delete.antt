-- ===== src/Services/Handlers/Delete.antt =====
-- app/services/handlers.py: `delete_handler`. The pauses of the loop are left out.
pub mod Counts
use Prim.Native.Nat.{min}
use rubica_bot.Prelude.{
  ℕ, zero, suc, ◌+◌, String, Bool, true, false, not, Option, none, some, List, [], ◌∷◌,
  if◌then◌else◌, ◌==◌, str_eq, ◌||◌,
}
use rubica_bot.Prelude.Int.{ℤ, pos, negsuc, parse_ℤ, clamp_below}
use rubica_bot.Prelude.Text.{◌<+>◌, show_ℕ}
use rubica_bot.Result.{Result, ok, raise}
use rubica_bot.Json.{Value, str, obj, flag, truthy, Fields, no_fields, entry, find}
use rubica_bot.Utils.Message.{get_chat_id}
use rubica_bot.Core.Client.Calls.{Call, delete_message}
use rubica_bot.Db.Tables.{column}
use rubica_bot.Db.Messages.{fetch_recent_message_ids}
use rubica_bot.Services.Texts.{
  delete_invalid, delete_none, delete_empty, deleted_label, failed_label,
}
use rubica_bot.Services.Action.{World, Action, ◌>>=◌, return, lift, from_db}
use rubica_bot.Services.Context.{Context, request, has_key}
use rubica_bot.Services.Commands.{Handler}
use rubica_bot.Services.Handlers.Info.{in_chat, reply}

-- result.get("ok", True)
unfoldable pub is_ok : Value → Bool
unfolding has_key find
is_ok (obj fs) = if has_key "ok" fs then truthy (find "ok" fs) else true
is_ok _ = false

-- `try: …`: what is counted as deleted. A result that is no dict raises `AttributeError`, which is
-- caught with all others.
unfoldable pub is_deleted : Result Value → Bool
unfolding is_ok
is_deleted (ok result) = is_ok result
is_deleted (raise e) = false

-- The loop over the ids, with the counts of the deleted and of the failed.
unfoldable pub delete_all : Context → Value → List String → ℕ → ℕ → World → (ℕ × ℕ) × World
delete_all ctx chat_id [] deleted failed w = ((deleted, failed), w)
delete_all ctx chat_id (id ∷ ids) deleted failed w =
    let (result, w') = request ctx (delete_message chat_id (str id)) w in
    let good = is_deleted result in
    delete_all ctx chat_id ids (if good then deleted + 1 else deleted)
      (if good then failed else failed + 1) w'

unfoldable pub counts : Context → Value → List String → Action (ℕ × ℕ)
counts ctx chat_id ids w = let (n, w') = delete_all ctx chat_id ids 0 0 w in (ok n, w')

-- `max(0, min(limit, 10000))`
unfoldable pub clamp : ℤ → ℕ
clamp n = min (clamp_below n) 10000

-- `100` without an argument, and else `int(args[0])`
unfoldable pub limit_of : List String → Option ℤ
unfolding parse_ℤ
limit_of [] = some (pos 100)
limit_of (word ∷ args) = parse_ℤ word

unfoldable pub delete_ids : Context → Value → List String → Action {0} Unit
delete_ids ctx chat_id [] = reply ctx chat_id delete_empty
delete_ids ctx chat_id (id ∷ ids) = do
  n ← counts ctx chat_id (id ∷ ids)
  reply ctx chat_id (deleted_label <+> show_ℕ n.0 <+> failed_label <+> show_ℕ n.1)

unfoldable pub delete_recent : Option ℤ → Context → Value → Action {0} Unit
delete_recent none ctx chat_id = reply ctx chat_id delete_invalid
delete_recent (some n) ctx chat_id = if clamp n == 0 then reply ctx chat_id delete_none else do
  chat ← lift (column chat_id)
  ids ← from_db (fetch_recent_message_ids chat (clamp n))
  delete_ids ctx chat_id ids

unfoldable pub delete_handler : Handler
delete_handler ctx message args = in_chat (delete_recent (limit_of args)) ctx message
