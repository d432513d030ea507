-- ===== src/Liveness/Verdicts.antt =====
-- apps/api/src/jobs/liveness.ts: when each verdict is given.
use homeparentcontrol.Prelude.{
  ℕ, ◌-◌, ◌≤◌, ◌<◌, ◌≡◌, ◌≢◌, Bool, true, false, List, some, arith, ◌↔◌, ◌⊎◌, inl, inr, Bool-cases,
  Option-cases,
}
use homeparentcontrol.Liveness.{
  HealthState, unenrolled, healthy, degraded, expected_offline, unexpected_silence, silent_too_long,
  Device, Event, decide, decide_silence, stopped_cleanly, is_away,
}

module _ (d : Device) (last now : ℕ) (inside stopped : Bool) where
  abbrev said : HealthState
  said = (decide_silence d last now inside stopped).state

  silence_unexplained :
      d.health_state ≢ unexpected_silence
      → said ≡ unexpected_silence
      → (600000 ≤ now - last) × (now - last < 129600000) × (stopped ≡ false) × (inside ≡ true)
  unfolding decide_silence
  silence_unexplained held e = ground arith

  unexplained_silence :
      600000 ≤ now - last
      → now - last < 129600000
      → stopped ≡ false
      → inside ≡ true
      → said ≡ unexpected_silence
  unfolding decide_silence
  unexplained_silence a b c i = ground arith

  too_long : d.health_state ≢ silent_too_long → said ≡ silent_too_long → 129600000 ≤ now - last
  unfolding decide_silence
  too_long held e = ground arith

  long_silence : 129600000 ≤ now - last → said ≡ silent_too_long
  unfolding decide_silence
  long_silence a = ground arith

  -- The state that is held in the gap between three minutes and ten.
  ticking :
      d.health_state ≢ healthy
      → d.health_state ≢ degraded
      → (said ≡ healthy) ⊎ (said ≡ degraded)
      → now - last ≤ 180000
  unfolding decide_silence
  ticking p q e = ground arith

  tick : now - last ≤ 180000 → (said ≡ healthy) ⊎ (said ≡ degraded)
  unfolding decide_silence
  tick a = ground arith

module _ (events : List Event) (d : Device) (now : ℕ) (inside : Bool) where
  abbrev pub IsUnexplained : Type 0
  IsUnexplained =
      (last : ℕ) × (d.last_sync_at ≡ some last)
      × (is_away d.away_until now ≡ false)
      × (600000 ≤ now - last)
      × (now - last < 129600000)
      × (stopped_cleanly events d.id last ≡ false)
      × (inside ≡ true)

  abbrev pub IsTooLong : Type 0
  IsTooLong =
      (last : ℕ) × (d.last_sync_at ≡ some last)
      × (is_away d.away_until now ≡ false)
      × (129600000 ≤ now - last)

  abbrev pub IsTicking : Type 0
  IsTicking =
      (last : ℕ) × (d.last_sync_at ≡ some last)
      × (is_away d.away_until now ≡ false)
      × (now - last ≤ 180000)

  decide_synced :
      (last : ℕ)
      → d.last_sync_at ≡ some last
      → is_away d.away_until now ≡ false
      → decide events d now inside
        ≡ decide_silence d last now inside (stopped_cleanly events d.id last)
  unfolding decide
  decide_synced last e h = ground arith

  -- A verdict other than the two of a device that never ticked or is away.
  decide_cases :
      (decide events d now inside).state ≢ unenrolled
      → (decide events d now inside).state ≢ expected_offline
      → (last : ℕ) × (d.last_sync_at ≡ some last) × (is_away d.away_until now ≡ false)
  unfolding decide
  decide_cases p q = elim (Option-cases d.last_sync_at) [
    | inl e ↦ absurd (p (ground arith))
    | inr (last, e) ↦ elim (Bool-cases (is_away d.away_until now)) [
      | inl away ↦ absurd (q (ground arith))
      | inr home ↦ (last, e, home)
    ]
  ]

  -- A device that is not already held in amber gets `UNEXPECTED_SILENCE` exactly when it has
  -- ticked once, is not away, has been silent for ten minutes and for less than 36 hours, did not
  -- stop cleanly, and should be online now; whether it was seen since it should be online is not
  -- asked.
  pub decide-unexpected_silence :
      d.health_state ≢ unexpected_silence
      → ((decide events d now inside).state ≡ unexpected_silence) ↔ IsUnexplained
  decide-unexpected_silence held = (to, from)
    where
      to : (decide events d now inside).state ≡ unexpected_silence → IsUnexplained
      to e =
          let (last, s, home) = decide_cases (λ p. cc) (λ p. cc) in
          let st = stopped_cleanly events d.id last in
          let e' : (decide_silence d last now inside st).state ≡ unexpected_silence =
            rw (decide_synced last s home) at e in
          let (a, b, c, i) = silence_unexplained d last now inside st held e' in
          (last, s, home, a, b, c, i)

      from : IsUnexplained → (decide events d now inside).state ≡ unexpected_silence
      from (last, s, home, a, b, c, i) =
          rw (decide_synced last s home)
            (unexplained_silence d last now inside (stopped_cleanly events d.id last) a b c i)

  -- A device that is not already `SILENT_TOO_LONG` becomes so exactly when it has ticked once, is
  -- not away, and has been silent for 36 hours: neither a clean stop nor the expected hours excuse it.
  decide-silent_too_long :
      d.health_state ≢ silent_too_long
      → ((decide events d now inside).state ≡ silent_too_long) ↔ IsTooLong
  decide-silent_too_long held = (to, from)
    where
      to : (decide events d now inside).state ≡ silent_too_long → IsTooLong
      to e =
          let (last, s, home) = decide_cases (λ p. cc) (λ p. cc) in
          let st = stopped_cleanly events d.id last in
          let e' : (decide_silence d last now inside st).state ≡ silent_too_long =
            rw (decide_synced last s home) at e in
          (last, s, home, too_long d last now inside st held e')

      from : IsTooLong → (decide events d now inside).state ≡ silent_too_long
      from (last, s, home, a) =
          rw (decide_synced last s home)
            (long_silence d last now inside (stopped_cleanly events d.id last) a)

  -- A device that was neither healthy nor degraded becomes one of the two exactly when it is not
  -- away and its last tick is at most three minutes old.
  decide_ticking :
      d.health_state ≢ healthy
      → d.health_state ≢ degraded
      → (((decide events d now inside).state ≡ healthy)
          ⊎ ((decide events d now inside).state ≡ degraded))
        ↔ IsTicking
  decide_ticking p q = (to, from)
    where
      to :
          ((decide events d now inside).state ≡ healthy)
            ⊎ ((decide events d now inside).state ≡ degraded)
          → IsTicking
      to e =
          let (last, s, home) = decide_cases (λ x. ground arith) (λ x. ground arith) in
          let st = stopped_cleanly events d.id last in
          let e' : ((decide_silence d last now inside st).state ≡ healthy)
              ⊎ ((decide_silence d last now inside st).state ≡ degraded) =
            rw (decide_synced last s home) at e in
          (last, s, home, ticking d last now inside st p q e')

      from :
          IsTicking
          → ((decide events d now inside).state ≡ healthy)
            ⊎ ((decide events d now inside).state ≡ degraded)
      from (last, s, home, a) =
          rw (decide_synced last s home)
            (tick d last now inside (stopped_cleanly events d.id last) a)
