-- ===== src/Cli/Commands.antt =====
-- The commands that more than one of the tools runs.
use rubica_bot.Prelude.{String, List, [], ◌∷◌}

abbrev pub restart : String → List String
restart service = "systemctl" ∷ "restart" ∷ service ∷ []

abbrev pub pip_install : String → String → List String
pip_install python requirements = python ∷ "-m" ∷ "pip" ∷ "install" ∷ "-r" ∷ requirements ∷ []

abbrev pub pytest : String → String → List String
pytest python tests = python ∷ "-m" ∷ "pytest" ∷ tests ∷ []
