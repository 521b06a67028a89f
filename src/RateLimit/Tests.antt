-- ===== src/RateLimit/Tests.antt =====
-- Four logins of one client and one of another within a minute, where two are allowed.
use backend_project.Prelude.{◌≡◌, refl, List, [], ◌∷◌, true, false, none, arith}
use backend_project.Redis.{Redis, CounterKey, find, forget, ◌>>=◌}
use backend_project.Redis.Laws.{counter_key}
use backend_project.Auth.Library.{Settings}
use backend_project.Auth.Samples.{settings}
use backend_project.RateLimit.{rate_limit}
use backend_project.RateLimit.Window.{Request, passes, up_to_limit, rate_limit-window}

abbrev strict : Settings
strict = record settings { auth_rate_limit_per_minute = 2 }

abbrev client : CounterKey
client = record { scope = "auth-login"; client_ip = "10.0.0.1" }

abbrev stranger : CounterKey
stranger = record { scope = "auth-login"; client_ip = "10.0.0.2" }

abbrev empty : Redis
empty = record { refresh_sessions = []; reservations = []; counters = [] }

abbrev more_requests : List Request
more_requests =
    record { now = 101; key = stranger }
    ∷ record { now = 102; key = client }
    ∷ record { now = 130; key = client }
    ∷ record { now = 159; key = client }
    ∷ []

two_pass :
    passes strict client (record { now = 100; key = client } ∷ more_requests) empty
    ≡ true ∷ true ∷ false ∷ false ∷ []
unfolding passes rate_limit find forget ◌>>=◌
two_pass = refl

nothing : find 100 client empty.counters ≡ none
unfolding find
nothing = refl

rate_limit-window_example :
    passes strict client (record { now = 100; key = client } ∷ more_requests) empty
    ≡ up_to_limit strict client 1 (record { now = 100; key = client } ∷ more_requests)
rate_limit-window_example =
    rate_limit-window strict client 100 more_requests empty nothing
      (omega arith, (omega arith, (omega arith, (omega arith, tt))))
