-- ===== src/HostSweep/Patience.antt =====
-- How long the sweep of src/host-sweep.ts waits, in the limits that its comments name.
use multi_user_agent_platfor.Base.{
  ℕ, ◌-◌, ◌≤◌, ◌<◌, false, Option, none, some, ◌≡◌, inl, inr, refl, arith, Bool-cases, max,
  coalesce, Option-cases, ltb, leb, num_eq, column_is-some, column_is, ◌⊎◌,
}
use multi_user_agent_platfor.SessionDb.Inbound.{ProcessingAck}
use multi_user_agent_platfor.HostSweep.Decision.{
  ContainerState, tolerance, is_stuck, over_ceiling, ceiling, bash_timeout_ms,
}

-- The tool under way is Bash with a declared timeout that is not shorter than the time.
abbrev pub Declared : Option ContainerState → ℕ → Type 0
Declared state time =
    (s : ContainerState) × (timeout : ℕ) × (state ≡ some s)
    × (s.current_tool ≡ some "Bash")
    × (s.tool_declared_timeout_ms ≡ some timeout)
    × (time ≤ timeout)

-- There is no heartbeat file, or the heartbeat is 30 minutes old at most or within the timeout of a
-- Bash command.
abbrev pub Beating : ℕ → ℕ → Option ContainerState → Type 0
Beating now heartbeat state =
    (heartbeat ≡ 0) ⊎ ((now - heartbeat ≤ 1800000) ⊎ Declared state (now - heartbeat))

-- A claim whose time is known is a minute old at most or within the timeout of a Bash command, or
-- the container gave a sign of life after it.
abbrev pub Honoured : ℕ → ℕ → Option ContainerState → ProcessingAck → Type 0
Honoured now heartbeat state c =
    (claimed_at : ℕ)
    → c.status_changed ≡ some claimed_at
    → ((now - claimed_at ≤ 60000) ⊎ Declared state (now - claimed_at)) ⊎ (claimed_at < heartbeat)

within-Declared :
    (limit time : ℕ) (state : Option ContainerState)
    → time ≤ max limit (coalesce (bash_timeout_ms state) 0)
    → (time ≤ limit) ⊎ Declared state time
unfolding bash_timeout_ms
within-Declared limit time none h = inl (ground arith)
within-Declared limit time (some s) h = elim (Bool-cases (column_is s.current_tool "Bash")) [
  | inr other ↦ let k = rw other at h in inl (ground arith)
  | inl bash ↦ elim (Option-cases s.tool_declared_timeout_ms) [
    | inl open_ ↦ let k = rw (bash, open_) at h in inl (ground arith)
    | inr (t, declared) ↦
        let k = rw (bash, declared) at h in
        elim (Bool-cases (leb time limit)) [
          | inl short ↦ inl (ground arith)
          | inr long ↦
              inr (s, t, refl, column_is-some s.current_tool "Bash" bash, declared, ground arith)
        ]
  ]
]

Declared-within :
    (limit time : ℕ) (state : Option ContainerState)
    → (time ≤ limit) ⊎ Declared state time
    → time ≤ max limit (coalesce (bash_timeout_ms state) 0)
unfolding bash_timeout_ms
Declared-within limit time state (inl h) = ground arith
Declared-within limit time state (inr (s, t, e, tool, declared, h)) =
    rw (e, tool, declared) ground (arith, h)

module _ (now heartbeat : ℕ) (state : Option ContainerState) where
  pub over_ceiling-Beating : over_ceiling now heartbeat state ≡ false → Beating now heartbeat state
  unfolding over_ceiling ceiling
  over_ceiling-Beating h = elim (Bool-cases (num_eq heartbeat 0)) [
    | inl absent ↦ inl (ground arith)
    | inr there ↦ inr (within-Declared 1800000 (now - heartbeat) state (ground arith))
  ]

  pub Beating-over_ceiling : Beating now heartbeat state → over_ceiling now heartbeat state ≡ false
  unfolding over_ceiling ceiling
  Beating-over_ceiling (inl absent) = ground arith
  Beating-over_ceiling (inr h) = ground (arith, Declared-within 1800000 (now - heartbeat) state h)

  pub is_stuck-Honoured :
      (c : ProcessingAck)
      → is_stuck now heartbeat (tolerance state) c.status_changed ≡ false
      → Honoured now heartbeat state c
  unfolding is_stuck tolerance
  is_stuck-Honoured c h t e =
      let fine = rw e at h in
      elim (Bool-cases (ltb t heartbeat)) [
        | inl alive ↦ inr (ground arith)
        | inr silent ↦ inl (within-Declared 60000 (now - t) state (ground arith))
      ]

  pub Honoured-is_stuck :
      (c : ProcessingAck)
      → Honoured now heartbeat state c
      → is_stuck now heartbeat (tolerance state) c.status_changed ≡ false
  unfolding is_stuck tolerance
  Honoured-is_stuck c h = elim (Option-cases c.status_changed) [
    | inl unread ↦ rw unread refl
    | inr (t, e) ↦ elim (h t e) [
      | inr alive ↦ rw e ground arith
      | inl recent ↦ rw e ground (arith, Declared-within 60000 (now - t) state recent)
    ]
  ]
