-- ===== src/Tests/Process.antt =====
-- config.ts, the secrets and server.ts on small inputs.
use sharpn.Prelude.{ℕ, ◌≡◌, refl, ◌↔◌, Option, none, some, [], ◌∷◌, ◌++◌}
use sharpn.Prelude.Decimal.{Text, codes}
use sharpn.Config.{Environment, Settings, settings_from, ok}
use sharpn.Config.Starting.{IsComplete, IsRunnable, settings_from-starts_iff}
use sharpn.Secrets.{read_token, read_session_secret, read_hash}
use sharpn.Secrets
use sharpn.Secrets.Echoed.{IsBare, read_token-echoed}

abbrev environment : Environment
environment = ("PORT", codes "8080") ∷ ("GATEWAY_TARGET", codes "gateway:50051") ∷ []

abbrev no_number : Text → Option ℕ
no_number text = none

settings_from-starts_iff_example :
    IsComplete no_number environment
    ↔ ((s : Settings) × (settings_from no_number environment ≡ ok s) × IsRunnable s)
settings_from-starts_iff_example = settings_from-starts_iff no_number environment

-- The token of a file that `echo` wrote.
abbrev token : Text
token = codes "s3cret"

token-IsBare : IsBare token
token-IsBare = record { something = λ e. cc; starts = refl; ends = refl }

read_token-echoed_example :
    (read_token (some ([] ++ (token ++ 10 ∷ []))) ≡ Secrets.ok token)
    × (read_session_secret (some ([] ++ (token ++ 10 ∷ []))) ≡ Secrets.ok token)
read_token-echoed_example = read_token-echoed [] token (10 ∷ []) refl token-IsBare refl
