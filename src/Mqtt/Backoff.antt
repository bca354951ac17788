-- ===== src/Mqtt/Backoff.antt =====
-- The waits between two connections, which `_run_loop` of nightshift/integrations/mqtt/client.py and
-- of nightshift/integrations/mqtt/pressure_adapter.py double alike. In seconds, all of them whole.
use nightshift_opi.Prelude.{ℕ, suc, ◌*◌, ◌^◌, ◌≡◌, min, arith}

abbrev pub backoff_base : ℕ
backoff_base = 1

abbrev pub backoff_max : ℕ
backoff_max = 30

-- `backoff = min(backoff * 2, _BACKOFF_MAX)`
abbrev pub next_backoff : ℕ → ℕ
next_backoff backoff = min (backoff * 2) backoff_max

-- The wait after k failures in a row.
abbrev pub backoff_after : ℕ → ℕ
backoff_after k = min (2 ^ k) 30

pub next_backoff_after : (k : ℕ) → next_backoff (backoff_after k) ≡ backoff_after (suc k)
next_backoff_after k = omega arith
