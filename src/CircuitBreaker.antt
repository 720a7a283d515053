-- ===== src/CircuitBreaker.antt =====
-- src/circuit-breaker.ts: the delay of a start after crashes. The file is the state, `none` where it
-- is missing or cannot be read; its attempt is a number that the breaker wrote, so at least 1.
use multi_user_agent_platfor.Base.{
  ℕ, zero, suc, ◌+◌, ◌-◌, ◌*◌, ◌≤◌, ◌<◌, min, true, Option, none, some, List, [], ◌∷◌, ◌++◌, length,
  ◌≡◌, refl, ◌∙◌, ap, arith, All, if◌then◌else◌, ltb,
}

pub record CircuitBreakerState : Type 0 where
  pub attempt : ℕ
  pub timestamp : ℕ

abbrev pub reset_window_ms : ℕ
reset_window_ms = 60 * 60 * 1000

abbrev pub backoff_schedule_s : List ℕ
backoff_schedule_s = 0 ∷ 0 ∷ 10 ∷ 30 ∷ 120 ∷ 300 ∷ 900 ∷ []

-- `array[i]`; `none` is undefined
unfoldable pub get_elem? : ℕ → List ℕ → Option ℕ
get_elem? i [] = none
get_elem? zero (x ∷ xs) = some x
get_elem? (suc i) (x ∷ xs) = get_elem? i xs

unfoldable pub get_delay : ℕ → Option ℕ
get_delay attempt = get_elem? (min (attempt - 1) (length backoff_schedule_s - 1)) backoff_schedule_s

unfoldable pub next_attempt : ℕ → Option CircuitBreakerState → ℕ
next_attempt now none = 1
next_attempt now (some prev) =
    if ltb now (prev.timestamp + reset_window_ms) then prev.attempt + 1 else 1

-- The state that is written, and the seconds that the start waits.
unfoldable pub enforce_startup_backoff :
    ℕ → Option CircuitBreakerState → CircuitBreakerState × Option ℕ
enforce_startup_backoff now file =
    let attempt = next_attempt now file in
    (record { attempt = attempt; timestamp = now }, get_delay attempt)

-- The file is unlinked.
unfoldable pub reset_circuit_breaker : Option CircuitBreakerState → Option CircuitBreakerState
reset_circuit_breaker file = none

-- Crashing starts at the given times, each with the file that the one before it left.
unfoldable pub crashes : List ℕ → Option CircuitBreakerState → Option CircuitBreakerState
crashes [] file = file
crashes (now ∷ later) file = crashes later (some (enforce_startup_backoff now file).0)

-- Each time is less than the reset window after the one before it.
abbrev pub Close : ℕ → List ℕ → Type 0
Close t [] = Unit
Close t (u ∷ us) = (u < t + reset_window_ms) × Close u us

get_elem?-bounded :
    (i b : ℕ) (xs : List ℕ)
    → i < length xs
    → All (λ x. x ≤ b) xs
    → (d : ℕ) × (get_elem? i xs ≡ some d) × (d ≤ b)
unfolding get_elem?
get_elem?-bounded i b [] l h = absurd (ground arith)
get_elem?-bounded zero b (x ∷ xs) l (h, hs) = (x, refl, h)
get_elem?-bounded (suc i) b (x ∷ xs) l (h, hs) = get_elem?-bounded i b xs (ground arith) hs

-- Every start waits for a time that the schedule has, a quarter of an hour at most.
pub enforce_startup_backoff-bounded :
    (now : ℕ) (file : Option CircuitBreakerState)
    → (d : ℕ) × ((enforce_startup_backoff now file).1 ≡ some d) × (d ≤ 900)
unfolding enforce_startup_backoff get_delay
enforce_startup_backoff-bounded now file =
    get_elem?-bounded (min (next_attempt now file - 1) 6) 900 backoff_schedule_s (ground arith)
      (ground arith)

crashes-attempt :
    (a t : ℕ) (ts : List ℕ) (now : ℕ)
    → Close t (ts ++ now ∷ [])
    → next_attempt now (crashes ts (some (record { attempt = a; timestamp = t })))
      ≡ a + length ts + 1
unfolding crashes enforce_startup_backoff next_attempt
crashes-attempt a t [] now (l, h) = ground arith
crashes-attempt a t (u ∷ us) now (l, h) =
    let close : ltb u (t + reset_window_ms) ≡ true = ground arith in
    rw close (crashes-attempt (a + 1) u us now h ∙ ground arith)

-- A start that follows crashes, each less than an hour after the one before it and the first of
-- them from a clean state, waits for the entry of the schedule at the number of the crashes, or
-- for the last one from six crashes on.
pub enforce_startup_backoff-counts_crashes :
    (t : ℕ) (ts : List ℕ) (now : ℕ)
    → Close t (ts ++ now ∷ [])
    → (enforce_startup_backoff now (crashes (t ∷ ts) none)).1
      ≡ get_elem? (min (length (t ∷ ts)) 6) backoff_schedule_s
unfolding enforce_startup_backoff crashes get_delay next_attempt
enforce_startup_backoff-counts_crashes t ts now h =
    let i : min (1 + length ts + 1 - 1) 6 ≡ min (length (t ∷ ts)) 6 = ground arith in
    rw (crashes-attempt 1 t ts now h) (ap (λ n. get_elem? n backoff_schedule_s) i)
