-- ===== src/Services/Handlers/Info.antt =====
-- app/services/handlers.py: the handlers that only answer.
use rubica_bot.Prelude.{
  ℕ, zero, suc, ◌+◌, String, not, Option, none, some, List, [], ◌∷◌, map, if◌then◌else◌,
}
use rubica_bot.Prelude.Text.{◌<+>◌, join, show_ℕ}
use rubica_bot.Result.{Result, ok, raise, bad_value}
use rubica_bot.Json.{Value, str, arr, obj, null, truthy, show, items, fields}
use rubica_bot.Utils.Message.{get_chat_id, get_message_id, get_sender_id}
use rubica_bot.Utils.Stats.{StatsCollector, average_dispatch_ms, uptime_seconds}
use rubica_bot.Utils.Formatting.{format_duration, show_2f}
use rubica_bot.Core.Client.Calls.{send_message, set_commands}
use rubica_bot.Services.Texts.{
  help_title, heads, tails, joke_computer, joke_code, joke_bug, dice, no_stats, echo_nothing,
  calc_usage, calc_error,
}
use rubica_bot.Services.Action.{Action, ◌>>=◌, return, lift}
use rubica_bot.Services.Context.{Context, request}
use rubica_bot.Services.Commands.{Handler}

-- `await context["client"].send_message(chat_id, text)`, with which a handler ends
unfoldable pub reply : Context → Value → String → Action {0} Unit
reply ctx chat_id text = do _ ← request ctx (send_message chat_id text null null); return tt

-- `chat_id = get_chat_id(message)`, and a return where there is none.
unfoldable pub in_chat : (Context → Value → Action {0} Unit) → Context → Value → Action {0} Unit
in_chat act ctx message = do
  chat_id ← lift (get_chat_id message)
  if not (truthy chat_id) then return tt else act ctx chat_id

abbrev help_line : String × String → String
help_line (name, description) = "/" <+> name <+> " - " <+> description

unfoldable pub help_handler : Handler
unfolding in_chat reply join
help_handler ctx message args =
    in_chat (λ ctx chat_id. reply ctx chat_id (join "\n" (help_title ∷ map help_line ctx.commands)))
      ctx message

abbrev pub command_entry : String × String → Value
command_entry (name, description) =
    obj (fields (("command", str name) ∷ ("description", str description) ∷ []))

unfoldable pub setcmd_handler : Handler
unfolding set_commands
setcmd_handler ctx message args = do
  _ ← request ctx (set_commands (arr (items (map command_entry ctx.commands))))
  return tt

unfoldable pub ping_handler : Handler
unfolding in_chat reply
ping_handler ctx message args = in_chat (λ ctx chat_id. reply ctx chat_id "pong") ctx message

-- random.choice(l)
abbrev choice : List String → ℕ → String
choice [] n = ""
choice (x ∷ l) zero = x
choice (x ∷ l) (suc n) = choice l n

unfoldable pub coin_handler : Handler
unfolding in_chat reply
coin_handler ctx message args =
    in_chat (λ ctx chat_id. reply ctx chat_id (choice (heads ∷ tails ∷ []) (ctx.library.random 2)))
      ctx message

unfoldable pub roll_handler : Handler
unfolding in_chat reply show_ℕ
roll_handler ctx message args =
    in_chat (λ ctx chat_id. reply ctx chat_id (dice <+> show_ℕ (1 + ctx.library.random 6))) ctx
      message

unfoldable pub joke_handler : Handler
unfolding in_chat reply
joke_handler ctx message args =
    in_chat
      (λ ctx chat_id.
        reply ctx chat_id
          (choice (joke_computer ∷ joke_code ∷ joke_bug ∷ []) (ctx.library.random 3)))
      ctx message

unfoldable pub uptime_text : Context → Option StatsCollector → String
unfolding format_duration uptime_seconds
uptime_text ctx none = no_stats
uptime_text ctx (some stats) = "Uptime: " <+> format_duration (uptime_seconds ctx.wall stats)

unfoldable pub uptime_handler : Handler
unfolding in_chat reply uptime_text
uptime_handler ctx message args =
    in_chat (λ ctx chat_id. reply ctx chat_id (uptime_text ctx ctx.stats)) ctx message

unfoldable pub stats_text : Context → Option StatsCollector → String
unfolding format_duration uptime_seconds average_dispatch_ms show_2f show_ℕ
stats_text ctx none = no_stats
stats_text ctx (some s) =
    "Updates: "
    <+> show_ℕ s.total_updates
    <+> "\nErrors: "
    <+> show_ℕ s.total_errors
    <+> "\nAvg dispatch: "
    <+> show_2f (average_dispatch_ms s)
    <+> "ms\nLast dispatch: "
    <+> show_2f (s.last_dispatch_ms, 1)
    <+> "ms\nLast queue size: "
    <+> show_ℕ s.last_queue_size
    <+> "\nUptime: "
    <+> format_duration (uptime_seconds ctx.wall s)

unfoldable pub stats_handler : Handler
unfolding in_chat reply stats_text
stats_handler ctx message args =
    in_chat (λ ctx chat_id. reply ctx chat_id (stats_text ctx ctx.stats)) ctx message

abbrev echo_text : List String → String
unfolding join
echo_text [] = echo_nothing
echo_text (x ∷ args) = join " " (x ∷ args)

unfoldable pub echo_handler : Handler
unfolding in_chat reply join
echo_handler ctx message args =
    in_chat (λ ctx chat_id. reply ctx chat_id (echo_text args)) ctx message

unfoldable pub id_handler : Handler
unfolding get_chat_id get_sender_id get_message_id reply show
id_handler ctx message args = do
  chat_id ← lift (get_chat_id message)
  if not (truthy chat_id) then return tt else do
    sender_id ← lift (get_sender_id message)
    message_id ← lift (get_message_id message)
    let shown = show ctx.library.repr
    reply ctx chat_id (
        "Chat ID: "
        <+> shown chat_id
        <+> "\nUser ID: "
        <+> shown sender_id
        <+> "\nMessage ID: "
        <+> shown message_id)

unfoldable pub time_handler : Handler
unfolding in_chat reply
time_handler ctx message args =
    in_chat (λ ctx chat_id. reply ctx chat_id ctx.library.utc_now) ctx message

-- What `/calc` answers: an error that is no `ValueError` is not caught.
abbrev calc_text : Result String → Result String
calc_text (ok g) = ok ("= " <+> g)
calc_text (raise (bad_value exc)) = ok (calc_error <+> exc)
calc_text (raise e) = raise e

abbrev calc : List String → Context → Result String
unfolding join
calc [] ctx = ok calc_usage
calc (x ∷ args) ctx = calc_text (ctx.library.safe_eval (join " " (x ∷ args)))

unfoldable pub calc_handler : Handler
unfolding in_chat reply join
calc_handler ctx message args =
    in_chat (λ ctx chat_id. lift (calc args ctx) >>= reply ctx chat_id) ctx message

unfoldable pub about_handler : Handler
unfolding in_chat reply
about_handler ctx message args =
    in_chat (λ ctx chat_id. reply ctx chat_id ("Rubika Bot API v" <+> ctx.version)) ctx message

unfoldable pub models_handler : Handler
unfolding in_chat reply
models_handler ctx message args =
    in_chat (λ ctx chat_id. reply ctx chat_id ctx.models_doc) ctx message
