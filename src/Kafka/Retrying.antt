-- ===== src/Kafka/Retrying.antt =====
-- The consumer never gives up before the shutdown, never comes back after it, and runs once the
-- broker accepts an attempt.
use aio_t_cloud.Base.{
  ℕ, zero, suc, ◌+◌, ◌*◌, ◌≤◌, Bool, true, false, ◌||◌, none, some, is_some, List, [], ◌∷◌, ◌≡◌,
  refl, arith, inl, inr, Option-cases,
}
use aio_t_cloud.Kafka.{
  Consumer, created, retry_delay, connect_and_subscribe, on_module_init, fire_timer, crashed,
  on_crash, on_module_destroy,
}

-- What happens to a consumer after its start.
pub data Signal : Type 0 where
  timer_fires : Signal
  crashes : (restart : Bool) → Signal
  shuts_down : Signal

module _ (accepts : ℕ → Bool) where
  abbrev pub react : Signal → Consumer → Consumer
  react timer_fires s = fire_timer accepts s
  react (crashes restart) s = on_crash restart (crashed restart s)
  react shuts_down s = on_module_destroy s

  abbrev pub run : List Signal → Consumer → Consumer
  run [] s = s
  run (x ∷ xs) s = run xs (react x s)

  -- The consumer runs, or a retry is scheduled, or it has been shut down.
  abbrev pub IsKept : Consumer → Type 0
  IsKept s = (s.running || is_some s.retry_timer || s.destroyed) ≡ true

  connect_and_subscribe-IsKept :
      (attempt : ℕ) (s : Consumer) → IsKept (connect_and_subscribe accepts attempt s)
  unfolding connect_and_subscribe
  connect_and_subscribe-IsKept attempt s = ground arith

  react-IsKept : (x : Signal) (s : Consumer) → IsKept s → IsKept (react x s)
  unfolding fire_timer on_crash on_module_destroy
  react-IsKept timer_fires s h = elim (Option-cases s.retry_timer) [
    | inl none_set ↦ rw none_set (rw none_set at h)
    | inr (t, set) ↦
        rw set (connect_and_subscribe-IsKept t.attempt (record s { retry_timer = none }))
  ]
  react-IsKept (crashes restart) s h = ground arith
  react-IsKept shuts_down s h = ground arith

  run-IsKept : (xs : List Signal) (s : Consumer) → IsKept s → IsKept (run xs s)
  run-IsKept [] s h = h
  run-IsKept (x ∷ xs) s h = run-IsKept xs (react x s) (react-IsKept x s h)

  -- Whatever happens after the start, with Kafka enabled and for any pattern of failures, also when a
  -- crash has ended the loop of the library for good, the consumer runs, or a retry is scheduled, or it has been shut down.
  pub run-on_module_init :
      (xs : List Signal) → IsKept (run xs (on_module_init accepts true created))
  unfolding on_module_init
  run-on_module_init xs = run-IsKept xs _ (connect_and_subscribe-IsKept 0 created)

  react-on_module_destroy :
      (x : Signal) (s : Consumer) → react x (on_module_destroy s) ≡ on_module_destroy s
  unfolding fire_timer on_crash on_module_destroy
  react-on_module_destroy timer_fires s = refl
  react-on_module_destroy (crashes restart) s = refl
  react-on_module_destroy shuts_down s = refl

  -- After the shutdown nothing starts the consumer again: no timer, and no crash.
  pub run-on_module_destroy :
      (xs : List Signal) (s : Consumer) → run xs (on_module_destroy s) ≡ on_module_destroy s
  run-on_module_destroy [] s = refl
  run-on_module_destroy (x ∷ xs) s = rw (react-on_module_destroy x s) (run-on_module_destroy xs s)

  -- The retries alone.
  abbrev pub retries : ℕ → Consumer → Consumer
  retries zero s = s
  retries (suc n) s = retries n (fire_timer accepts s)

  abbrev pub delay_of : Consumer → ℕ
  delay_of s = elim s.retry_timer [ none ↦ 0 | some t ↦ t.delay ]

  -- How long the retries have waited together.
  abbrev pub waited : ℕ → Consumer → ℕ
  waited zero s = 0
  waited (suc n) s = delay_of s + waited n (fire_timer accepts s)

  abbrev pub RunsWithin : ℕ → Consumer → Type 0
  RunsWithin n s =
      (m : ℕ) × (m ≤ n)
      × ((retries m s).running ≡ true)
      × ((k : ℕ) → delay_of (retries k s) ≤ 60_000)
      × (waited m s ≤ 60_000 * m)

  abbrev waiting : ℕ → Consumer → Consumer
  waiting attempt s = record s {
    running = false;
    tries = suc s.tries;
    retry_timer = some (record { delay = retry_delay attempt; attempt = suc attempt });
  }
