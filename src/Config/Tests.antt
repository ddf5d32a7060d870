-- ===== src/Config/Tests.antt =====
-- A configuration of an empty file, on a port of the environment.
use thesa.Prelude.{some, [], ◌≡◌, refl}
use thesa.Prelude.Int.{pos, ◌≤ℤ◌}
use thesa.Prelude.Text.{Text, codes}
use thesa.Errors.{ok}
use thesa.Config.{validate}
use thesa.Config.Load.{Config, defaults, load, apply_env_overrides}
use thesa.Config.Load.Laws.{LevelFrom, PortFrom, load-From}

abbrev getenv : Text → Text
getenv name = codes "9000"

abbrev loaded : Config Text
loaded =
    let d = defaults [] in
    record d {
      server = record d.server { port = pos 9000 };
      observability = record d.observability { log_level = codes "9000" };
    }

load_runs :
    load getenv
      (λ t. some (pos 9000))
      (λ path. ok [])
      (λ t cfg. ok cfg)
      (λ f. ok f)
      (λ f. f)
      (λ f. ok f)
      []
      (codes "config.yaml")
    ≡ ok loaded
unfolding load apply_env_overrides validate
load_runs = refl

load-From_example :
    (pos 1 ≤ℤ pos 9000)
    × (pos 9000 ≤ℤ pos 65535)
    × ((bytes : Text) × (file : Config Text) × (ok [] ≡ ok bytes)
        × (ok (defaults []) ≡ ok file)
        × LevelFrom getenv (λ t. some (pos 9000)) file loaded
        × PortFrom getenv (λ t. some (pos 9000)) file loaded)
load-From_example =
    load-From getenv (λ t. some (pos 9000)) (λ path. ok []) (λ t cfg. ok cfg) (λ f. ok f) (λ f. f)
      (λ f. ok f) [] (codes "config.yaml") loaded load_runs
