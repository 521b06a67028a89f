-- ===== src/RateLimit.antt =====
-- app/dependencies.py: `rate_limit_dependency`, which the routes of app/routers/auth.py depend on.
mod Window
mod Tests
use backend_project.Prelude.{ℕ, Time, ltb, ◌==◌, Bool, true, false, if◌then◌else◌}
use backend_project.Errors.{raise_if, app_exception, rate_limit_exceeded}
use backend_project.Redis.{Redis, RedisExec, CounterKey, incr, expire, lift, command, ◌>>=◌, ◌>>◌}
use backend_project.Redis.Laws.{counter_key}
use backend_project.Auth.Library.{Settings}

abbrev pub count_request : Time → CounterKey → Redis → ℕ × Redis
count_request now key r =
    let (count, counters) = incr now key r.counters in (count, record r { counters = counters })

abbrev pub expire_counter : Time → CounterKey → Redis → Redis
expire_counter now key r = record r { counters = expire now key 60 r.counters }

-- The `dependency` for a scope and a client. The `ttl` that it reads is shown in the message only.
unfoldable pub rate_limit : Settings → Time → CounterKey → RedisExec (Unit {0})
rate_limit settings now key = do
  count ← command (count_request now key)
  command (λ r. (tt, if count == 1 then expire_counter now key r else r))
  lift (
      raise_if (ltb settings.auth_rate_limit_per_minute count)
        (app_exception 429 rate_limit_exceeded))
