-- ===== src/Cli/Tests.antt =====
-- The theorem about the file .env at a concrete input.
mod Machines
mod Verdicts
use rubica_bot.Prelude.{◌≡◌, refl, [], ◌∷◌}
use rubica_bot.Cli.Installer.{render_env}
use rubica_bot.Cli.EnvFile.{read_env, strip}
use rubica_bot.Cli.EnvFile.RoundTrip
use rubica_bot.Cli.EnvFile.RoundTrip.{is_line}

read_env-render_env_example :
    read_env (render_env "t0" "https://x" "" "s=1" "42")
    ≡ ("RUBIKA_BOT_TOKEN", "t0")
      ∷ ("RUBIKA_API_BASE_URL", "https://x")
      ∷ ("RUBIKA_OWNER_ID", "42")
      ∷ ("RUBIKA_WEBHOOK_SECRET", "s=1")
      ∷ []
unfolding is_line strip
read_env-render_env_example =
    RoundTrip.read_env-render_env "t0" "https://x" "" "s=1" "42" refl refl refl refl refl
