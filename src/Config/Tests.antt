-- ===== src/Config/Tests.antt =====
-- The statements about the configuration at concrete inputs.
use apiforge.Base.{◌≡◌, refl, Bool, true, false, none, List, [], ◌∷◌, map, arith}
use apiforge.Base.Text.{Bytes, codes, same_bytes}
use apiforge.Config.{Env}
use apiforge.Config.EnvFile.{load_env_file}
use apiforge.Config.Loading.{value_or, load_env_file-protected}
use apiforge.Config.Written.{Entry, comment, setting, written, last_set, load_env_file-written}

abbrev no_env : Env
no_env k = []

abbrev only_port : Bytes → Bool
only_port k = same_bytes k (codes "PORT")

abbrev three_entries : List Entry
three_entries =
    comment (codes " local")
    ∷ setting true b'H' (codes "OST") b'"' (codes "::1 # local")
    ∷ setting false b'P' (codes "ORT") b'\'' (codes "1 2")
    ∷ []

load_env_file-written_example :
    let loaded = load_env_file only_port none no_env (map written three_entries) in
    (loaded.1 ≡ none)
    × (loaded.0 (codes "HOST")
        ≡ value_or (last_set only_port (codes "HOST") three_entries) (no_env (codes "HOST")))
load_env_file-written_example =
    load_env_file-written only_port no_env three_entries (codes "HOST") (
      tt,
      (
        (refl, (refl, (refl, (refl, tt))), refl, omega arith, refl),
        ((refl, (refl, (refl, (refl, tt))), refl, omega arith, refl), tt),
      ),
    )

port_protected : only_port (codes "PORT") ≡ true
unfolding same_bytes
port_protected = refl

load_env_file-protected_example :
    (load_env_file only_port none no_env (map written three_entries)).0 (codes "PORT") ≡ []
load_env_file-protected_example =
    load_env_file-protected only_port none no_env (map written three_entries) (codes "PORT")
      port_protected
