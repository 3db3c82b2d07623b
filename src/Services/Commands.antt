-- ===== src/Services/Commands.antt =====
-- app/services/plugins/commands.py: `Command`, `CommandRegistry` and `CommandsPlugin`.
pub mod Authority
use rubica_bot.Prelude.{
  String, Bool, true, false, not, ◌&&◌, ◌||◌, Option, none, some, List, [], ◌∷◌, str_eq,
  if◌then◌else◌,
}
use rubica_bot.Prelude.Text.{split, lstrip, lower, starts_with}
use rubica_bot.Result.{Result, ok, raise, index_error}
use rubica_bot.Json.{Value, str, null, truthy}
use rubica_bot.Utils.Message.{extract_message, get_chat_id, get_sender_id, get_text}
use rubica_bot.Core.Client.Calls.{send_message}
use rubica_bot.Services.Texts.{admins_only}
use rubica_bot.Services.Action.{Action, ◌>>=◌, return, lift}
use rubica_bot.Services.Context.{Context, request, is_admin, text_of}

-- A handler gets the message, the context and the arguments.
abbrev pub Handler : Type 0
Handler = Context → Value → List String → Action {0} Unit

pub record Command : Type 0 where
  pub name : String
  pub description : String
  pub handler : Handler
  pub admin_only : Bool

-- A dict by the names: a name that is there keeps its place.
unfoldable pub register : Command → List Command → List Command
register command [] = command ∷ []
register command (c ∷ cs) =
    if str_eq c.name command.name then command ∷ cs else c ∷ register command cs

unfoldable pub list_commands : List Command → List (String × String)
list_commands [] = []
list_commands (c ∷ cs) = (c.name, c.description) ∷ list_commands cs

unfoldable pub get : String → List Command → Option Command
get name [] = none
get name (c ∷ cs) = if str_eq c.name name then some c else get name cs

-- text.strip().split(): the first word and the others. No word is an `IndexError`.
abbrev pub first_word : List String → Result (String × List String)
first_word [] = raise index_error
first_word (word ∷ args) = ok (word, args)

unfoldable pub words : String → Result (String × List String)
unfolding split
words text = first_word (split text)

-- parts[0].lstrip("/").lower()
unfoldable pub command_name : String → String
unfolding lstrip lower
command_name word = lower (lstrip b'/' word)

-- sender_id == owner_id
unfoldable pub is_owner : Value → Option String → Bool
is_owner (str s) (some owner) = str_eq s owner
is_owner _ _ = false

unfoldable pub refuses : Context → Command → Value → Value → Action Bool
refuses ctx command chat_id sender_id =
    if command.admin_only && truthy chat_id && truthy sender_id
    then if is_owner sender_id ctx.owner_id
      then return false
      else (do admin ← is_admin chat_id sender_id; return (not admin))
    else return false

unfoldable pub run_command : Context → Value → List String → Option Command → Action Bool
run_command ctx message args none = return false
run_command ctx message args (some command) = do
  chat_id ← lift (get_chat_id message)
  sender_id ← lift (get_sender_id message)
  refused ← refuses ctx command chat_id sender_id
  if refused
      then (do _ ← request ctx (send_message chat_id admins_only null null); return true)
      else do _ ← command.handler ctx message args; return true

-- CommandsPlugin.handle
unfoldable pub handle : List Command → Context → Value → Action Bool
handle registry ctx update = do
  message ← lift (extract_message update)
  if not (truthy message) then return false else do
    found ← lift (get_text message)
    if not (truthy found) then return false else do
      text ← lift (text_of found)
      if not (starts_with text "/") then return false else do
        word ← lift (words text)
        run_command ctx message word.1 (get (command_name word.0) registry)
