-- ===== src/HostSweep/Liveness.antt =====
-- When the sweep of src/host-sweep.ts kills a container.
use multi_user_agent_platfor.Base.{
  ℕ, ◌-◌, ◌≤◌, ◌<◌, Bool, true, false, Option, none, some, List, [], ◌∷◌, String, ◌≡◌, ◌↔◌, inl,
  inr, refl, arith, All, In, Bool-cases, select, delete_where, All-of_In, All-In,
}
use multi_user_agent_platfor.SessionDb.Inbound.{
  ProcessingAck, get_processing_claims, delete_orphan_processing_claims,
}
use multi_user_agent_platfor.HostSweep.Decision.{
  ContainerState, StuckDecision, keep, kill_ceiling, kill_claim, claim_stuck_ms, tolerance,
  is_stuck, first_stuck, over_ceiling, decide_stuck_action,
}
use multi_user_agent_platfor.HostSweep.Retry.{SessionFiles, reset_stuck_processing_rows}
use multi_user_agent_platfor.HostSweep.Patience.{
  Beating, Beating-over_ceiling, Honoured, Honoured-is_stuck, is_stuck-Honoured,
  over_ceiling-Beating,
}

abbrev is_keep : StuckDecision → Bool
is_keep keep = true
is_keep _ = false

keep-of : (d : StuckDecision) → is_keep d ≡ true → d ≡ keep
keep-of keep h = refl
keep-of (kill_ceiling _ _) h = cc
keep-of (kill_claim _ _ _) h = cc

module _ (now heartbeat limit : ℕ) where
  first_stuck-keep :
      (claims : List ProcessingAck)
      → first_stuck now heartbeat limit claims ≡ keep
      → All (λ c. is_stuck now heartbeat limit c.status_changed ≡ false) claims
  unfolding first_stuck
  first_stuck-keep [] h = tt
  first_stuck-keep (c ∷ claims) h =
      elim (Bool-cases (is_stuck now heartbeat limit c.status_changed)) [
        | inl stuck ↦ let k = rw (stuck, first_stuck) at h in cc
        | inr fine ↦ (fine, first_stuck-keep claims (rw (fine, first_stuck) at h))
      ]

  first_stuck-none :
      (claims : List ProcessingAck)
      → All (λ c. is_stuck now heartbeat limit c.status_changed ≡ false) claims
      → first_stuck now heartbeat limit claims ≡ keep
  unfolding first_stuck
  first_stuck-none [] h = refl
  first_stuck-none (c ∷ claims) (h, hs) = rw h (first_stuck-none claims hs)

  first_stuck-names :
      (claims : List ProcessingAck) (id : String) (age lim : ℕ)
      → first_stuck now heartbeat limit claims ≡ kill_claim id age lim
      → (c : ProcessingAck) × In c claims
        × (c.message_id ≡ id)
        × (is_stuck now heartbeat limit c.status_changed ≡ true)
  unfolding first_stuck
  first_stuck-names [] id age lim h = cc
  first_stuck-names (c ∷ claims) id age lim h =
      elim (Bool-cases (is_stuck now heartbeat limit c.status_changed)) [
        | inl stuck ↦ let k = rw (stuck, first_stuck) at h in (c, inl refl, cc, stuck)
        | inr fine ↦
            let (d, m, e, s) = first_stuck-names claims id age lim (rw (fine, first_stuck) at h) in
            (d, inr m, e, s)
      ]

  stuck-silent :
      (t : Option ℕ)
      → is_stuck now heartbeat limit t ≡ true
      → (claimed_at : ℕ) × (t ≡ some claimed_at)
        × (heartbeat ≤ claimed_at)
        × (limit < now - claimed_at)
  unfolding is_stuck
  stuck-silent none h = cc
  stuck-silent (some t) h = (t, refl, ground arith, ground arith)

-- The sweep keeps a running container exactly where it has no heartbeat file or a heartbeat of 30
-- minutes at most, and every claim of a known time is a minute old at most or older than its last
-- heartbeat; a Bash command that is under way stretches both limits to its declared timeout.
pub decide_stuck_action-keep_iff :
    (now heartbeat : ℕ) (state : Option ContainerState) (claims : List ProcessingAck)
    → (decide_stuck_action now heartbeat state claims ≡ keep)
      ↔ (Beating now heartbeat state × All (Honoured now heartbeat state) claims)
unfolding decide_stuck_action
decide_stuck_action-keep_iff now heartbeat state claims =
    elim (Bool-cases (over_ceiling now heartbeat state)) [
      | inl over ↦ (
        (λ h. let k = rw over at h in cc),
        (λ p. let q = Beating-over_ceiling now heartbeat state p.0 in cc),
      )
      | inr fine ↦ rw fine (
        (λ h. (
          over_ceiling-Beating now heartbeat state fine,
          All-of_In _ claims (λ c m.
              is_stuck-Honoured now heartbeat state c
                (All-In _ claims c (first_stuck-keep now heartbeat (tolerance state) claims h) m)),
        )),
        (λ p. first_stuck-none now heartbeat (tolerance state) claims (
            All-of_In _ claims
              (λ c m. Honoured-is_stuck now heartbeat state c (All-In _ claims c p.1 m)))),
      )
    ]

-- A container that is killed for a claim has held that claim for over a minute, and has not touched
-- its heartbeat file since it made the claim.
pub decide_stuck_action-kills_silent :
    (now heartbeat : ℕ) (state : Option ContainerState) (claims : List ProcessingAck) (id : String)
    (age lim : ℕ)
    → decide_stuck_action now heartbeat state claims ≡ kill_claim id age lim
    → (c : ProcessingAck) × In c claims
      × (c.message_id ≡ id)
      × ((claimed_at : ℕ) × (c.status_changed ≡ some claimed_at)
          × (heartbeat ≤ claimed_at)
          × (claim_stuck_ms < now - claimed_at))
unfolding decide_stuck_action tolerance
decide_stuck_action-kills_silent now heartbeat state claims id age lim h =
    elim (Bool-cases (over_ceiling now heartbeat state)) [
      | inl over ↦ let k = rw over at h in cc
      | inr fine ↦
          let (c, m, e, s) =
            first_stuck-names now heartbeat (tolerance state) claims id age lim (rw fine at h) in
          let (t, f, b, l) = stuck-silent now heartbeat (tolerance state) c.status_changed s in
          (c, m, e, (t, f, b, ground arith))
    ]

claims-deleted :
    (acks : List ProcessingAck) → get_processing_claims (delete_orphan_processing_claims acks) ≡ []
unfolding get_processing_claims delete_orphan_processing_claims select delete_where
claims-deleted [] = refl
claims-deleted (a ∷ acks) = ground (arith, claims-deleted acks)

-- Once the rows of a dead container are reset, and where its outbound.db could be opened for writing
-- and the claims deleted, its old claims cannot kill the next one: before that container has a
-- heartbeat, any later sweep keeps it.
pub reset-spares_next :
    (now later : ℕ) (state : Option ContainerState) (f : SessionFiles)
    → decide_stuck_action later 0 state
        (get_processing_claims (reset_stuck_processing_rows now true f).acks)
      ≡ keep
unfolding reset_stuck_processing_rows decide_stuck_action over_ceiling first_stuck
reset-spares_next now later state f = rw (claims-deleted f.acks) refl
