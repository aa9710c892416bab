-- ===== src/Kafka/Connection.antt =====
-- The life of the consumer: `onModuleInit`, `connectAndSubscribe`, its `CRASH` listener and
-- `onModuleDestroy`. `accepts n` says whether the n-th attempt to connect, subscribe and run succeeds,
-- for any pattern of failures.
use aio_t_cloud.Base.{
  ℕ, zero, suc, Bool, true, false, ◌||◌, ◌&&◌, Option, none, some, List, [], ◌∷◌, min,
  if◌then◌else◌,
}

-- `RETRY_DELAYS_MS`
abbrev pub retry_delays_ms : List ℕ
retry_delays_ms = 5_000 ∷ 15_000 ∷ 30_000 ∷ 60_000 ∷ []

abbrev nth : ℕ → List ℕ → ℕ
nth n [] = 0
nth zero (x ∷ xs) = x
nth (suc n) (x ∷ xs) = nth n xs

-- `RETRY_DELAYS_MS[Math.min(attempt, RETRY_DELAYS_MS.length - 1)]`
unfoldable pub retry_delay : ℕ → ℕ
retry_delay attempt = nth (min attempt 3) retry_delays_ms

-- A call of `connectAndSubscribe(attempt)` that waits.
pub record RetryTimer : Type 0 where
  pub delay : ℕ
  pub attempt : ℕ

-- `running` is the consume loop of the library; `tries` counts the attempts to start it.
pub record Consumer : Type 0 where
  pub running : Bool
  pub retry_timer : Option RetryTimer
  pub destroyed : Bool
  pub tries : ℕ

abbrev pub created : Consumer
created = record { running = false; retry_timer = none; destroyed = false; tries = 0 }

-- `connectAndSubscribe`
unfoldable pub connect_and_subscribe : (ℕ → Bool) → ℕ → Consumer → Consumer
unfolding retry_delay
connect_and_subscribe accepts attempt s =
    if accepts s.tries
    then record s { running = true; tries = suc s.tries }
    else if s.destroyed
    then record s { running = false; tries = suc s.tries }
    else record s {
      running = false;
      tries = suc s.tries;
      retry_timer = some (record { delay = retry_delay attempt; attempt = suc attempt });
    }

-- `onModuleInit`
unfoldable pub on_module_init : (ℕ → Bool) → Bool → Consumer → Consumer
unfolding connect_and_subscribe
on_module_init accepts kafka_enabled s =
    let started = connect_and_subscribe accepts 0 s in if kafka_enabled then started else s

-- The timer fires.
unfoldable pub fire_timer : (ℕ → Bool) → Consumer → Consumer
unfolding connect_and_subscribe
fire_timer accepts s = elim s.retry_timer [
  | none ↦ s
  | some t ↦ connect_and_subscribe accepts t.attempt (record s { retry_timer = none })
]

-- What a crash does before the listener is called: the loop of the library ends, unless `restart` says
-- that the library restarts it itself.
abbrev pub crashed : Bool → Consumer → Consumer
crashed restart s = record s { running = s.running && restart }

-- The listener of the event `CRASH`, which is told whether the library restarts.
unfoldable pub on_crash : Bool → Consumer → Consumer
unfolding retry_delay
on_crash restart s =
    if s.destroyed || restart
    then s
    else record s { retry_timer = some (record { delay = retry_delay 0; attempt = 0 }) }

-- `onModuleDestroy`
unfoldable pub on_module_destroy : Consumer → Consumer
on_module_destroy s = record s { destroyed = true; retry_timer = none; running = false }
