-- ===== src/Cli/Configure/Written.antt =====
-- What `configure` writes over a file .env, and what it loses.
use mathlib.Core.List.{append-nil}
use rubica_bot.Prelude.{◌≡◌, refl, sym, ap, ◌∙◌, String, true, false, Option, some, [], ◌∷◌, ◌++◌}
use rubica_bot.Prelude.Text.{is_empty}
use rubica_bot.Result.{ok}
use rubica_bot.Cli.Machine.{FilePath, Node, file, directory, Machine, below}
use rubica_bot.Cli.Machine.Files.{with_node, parent_of, write_text, read_text}
use rubica_bot.Cli.Machine.Trees.{below-append}
use rubica_bot.Cli.EnvFile.{read_env, get_key}
use rubica_bot.Cli.EnvFile.RoundTrip.{is_plain, env_pairs, read_env-render_env}
use rubica_bot.Cli.Installer.{render_env}
use rubica_bot.Cli.Installer.Inputs.{or_text, get_or}
use rubica_bot.Cli.Configure.{configure, read_env_file}

parent_of-append : (p : FilePath) (a : String) → parent_of (p ++ a ∷ []) ≡ p
unfolding parent_of
parent_of-append [] a = refl
parent_of-append (b ∷ []) a = refl
parent_of-append (b ∷ c ∷ p) a = ap (λ q. b ∷ q) (parent_of-append (c ∷ p) a)

with_node_self :
    (p : FilePath) (n : Node) (fs : FilePath → Option Node) → with_node p n fs p ≡ some n
unfolding with_node
with_node_self p n fs = rw (ap (below p) (sym (append-nil p)) ∙ below-append p [], with_node) refl

read_env_file-lem :
    (p : FilePath) (text : String) (m : Machine)
    → m.files p ≡ some (file text)
    → read_env_file p m ≡ (ok (read_env text), m)
unfolding read_env_file read_text
read_env_file-lem p text m there = rw there (rw (there, read_text) refl)

module _ (path : FilePath) (token owner base api secret old : String) (m : Machine)
    (token_given : is_empty token ≡ false) (owner_given : is_empty owner ≡ false)
    (base_given : is_empty base ≡ false) (api_given : is_empty api ≡ false)
    (in_place : m.files path ≡ some directory)
    (there : m.files (path ++ ".env" ∷ []) ≡ some (file old)) where
  abbrev env_path : FilePath
  env_path = path ++ ".env" ∷ []

  -- The secret that is kept where none is given.
  abbrev pub new_secret : String
  unfolding get_key
  new_secret = or_text secret (get_or (get_key "RUBIKA_WEBHOOK_SECRET" (read_env old)) "")

  abbrev text : String
  unfolding new_secret
  text = render_env token api base new_secret owner

  abbrev pub written_to : Machine
  unfolding text
  written_to = record m { files = with_node env_path (file text) m.files }

  write_text-env :
      (t : String)
      → write_text env_path t m ≡ (ok tt, record m { files = with_node env_path (file t) m.files })
  unfolding write_text
  write_text-env t = rw there (rw (parent_of-append path ".env") (rw in_place refl))

  kept_api : or_text api (get_or (get_key "RUBIKA_API_BASE_URL" (read_env old)) api) ≡ api
  kept_api = rw api_given refl

  configured :
      (t : String)
      → render_env token api base new_secret owner ≡ t
      → configure path token owner base api secret true m
        ≡ (ok tt, record m { files = with_node env_path (file t) m.files })
  unfolding configure new_secret
  configured t e = rw (read_env_file-lem env_path old m there) (
      rw (token_given, owner_given, base_given)
        (rw there (
          ap (λ a. write_text env_path (render_env token a base new_secret owner) m) kept_api
          ∙ ap (λ x. write_text env_path x m) e
          ∙ write_text-env t)))

  -- `configure --force` over a file .env, with all but the secret given and values of one line
  -- without white space around them, returns, and read_env reads from the new file the five
  -- settings that have a value, with the old secret where none is given: every other setting of the
  -- old file is lost.
  pub read_env_file-configure :
      is_plain token ≡ true
      → is_plain api ≡ true
      → is_plain base ≡ true
      → is_plain new_secret ≡ true
      → is_plain owner ≡ true
      → (m' : Machine) × (configure path token owner base api secret true m ≡ (ok tt, m'))
        × (read_env_file (path ++ ".env" ∷ []) m'
            ≡ (ok (env_pairs token api base new_secret owner), m'))
  unfolding text render_env written_to
  read_env_file-configure t a b s o = (
    written_to,
    configured text refl,
    read_env_file-lem env_path text written_to
          (unfold written_to in with_node_self env_path (file text) m.files)
        ∙ ap (λ pairs. (ok pairs, written_to))
            (read_env-render_env token api base new_secret owner t a b s o),
  )
