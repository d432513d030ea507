-- ===== src/Sync/Records.antt =====
-- apps/api/src/routes/sync.ts and apps/api/src/lib/tripwires.ts: what a tick leaves on record.
use homeparentcontrol.Prelude.{
  none, subst, ℕ, ◌+◌, ◌-◌, ◌*◌, ◌/◌, ◌≤◌, ◌<◌, ◌≡◌, refl, ◌∙◌, true, false, List, ◌∷◌, some, arith,
  ◌⊎◌, inl, inr, Bool-cases, Option-cases, ltb, leb,
}
use homeparentcontrol.Sync.{
  SyncRequest, SyncDevice, LogRow, power_on, asleep, unreported, record_power_on, record_gap,
  has_rebooted, gap_row, asleep_ns, gap_min_ns, asleep_min_ns,
}

-- A silence of at least ten minutes, from the last check-in until now, with no reboot in it.
pub record IsGap (b : SyncRequest) (d : SyncDevice) (now : ℕ) (r : LogRow) : Type 0 where
  pub from : ℕ
  pub last : ℕ
  pub synced : d.last_sync_at ≡ some from
  pub uptime : d.last_uptime_ns ≡ some last
  pub long : 600000 ≤ now - from
  pub begins : r.occurred_at ≡ from
  pub end_ : ℕ
  pub ends : r.to ≡ some end_
  pub within : (from ≤ end_) × (end_ ≤ now)
  pub explained :
      (r.kind ≡ asleep) × (b.continuous_ns - last + 120000000000 ≤ (now - from) * 1000000)
      ⊎ (r.kind ≡ unreported)
        × ((now - from) * 1000000 < b.continuous_ns - last + 120000000000)
        × (end_ ≡ now)

gap_row_lem :
    (b : SyncRequest) (d : SyncDevice) (now from last : ℕ)
    → d.last_sync_at ≡ some from
    → d.last_uptime_ns ≡ some last
    → 600000 ≤ now - from
    → IsGap b d now (
        gap_row d from
          ((now - from) * 1000000)
          (asleep_ns ((now - from) * 1000000) b.continuous_ns last))
gap_row_lem b d now from last s u l =
    let slept = (now - from) * 1000000 - (b.continuous_ns - last) in
    elim (Bool-cases (leb asleep_min_ns slept)) [
      | inl e ↦ rw e record {
        from = from;
        last = last;
        synced = s;
        uptime = u;
        long = l;
        begins = refl;
        end_ = from + slept / 1000000;
        ends = refl;
        within = (omega arith, omega arith);
        explained = inl (refl, ground arith);
      }
      | inr e ↦ rw e record {
        from = from;
        last = last;
        synced = s;
        uptime = u;
        long = l;
        begins = refl;
        end_ = from + ((now - from) * 1000000) / 1000000;
        ends = refl;
        within = (omega arith, omega arith);
        explained = inr (refl, ground arith, omega arith);
      }
    ]

record_gap_rebooted :
    (b : SyncRequest) (d : SyncDevice) (now : ℕ) (log : List LogRow)
    → has_rebooted b d.last_uptime_ns ≡ true
    → record_gap b d now log ≡ log
unfolding record_gap
record_gap_rebooted b d now log e = ground arith

record_power_on_rebooted :
    (b : SyncRequest) (d : SyncDevice) (log : List LogRow)
    → has_rebooted b d.last_uptime_ns ≡ true
    → (r : LogRow) × (record_power_on b d log ≡ r ∷ log)
      × (r.kind ≡ power_on)
      × (r.occurred_at ≡ b.system_boot_time)
unfolding record_power_on
record_power_on_rebooted b d log e = rw e (_, refl, refl, refl)

record_power_on_same :
    (b : SyncRequest) (d : SyncDevice) (log : List LogRow)
    → has_rebooted b d.last_uptime_ns ≡ false
    → record_power_on b d log ≡ log
unfolding record_power_on
record_power_on_same b d log e = rw e refl

short_of : (n : ℕ) → ltb (n * 1000000) gap_min_ns ≡ true → n < 600000
short_of n e = ground arith

long_of : (n : ℕ) → ltb (n * 1000000) gap_min_ns ≡ false → 600000 ≤ n
long_of n e = ground arith

-- Nothing to account for: the device never ticked, or without an uptime, or the silence was less than ten
-- minutes.
pub data HasNoGap (d : SyncDevice) (now : ℕ) : Type 0 where
  never_synced : d.last_sync_at ≡ none → HasNoGap d now
  no_uptime : d.last_uptime_ns ≡ none → HasNoGap d now
  short_gap : (from : ℕ) → d.last_sync_at ≡ some from → now - from < 600000 → HasNoGap d now

-- Without a reboot, what `record_gap` adds.
record_gap_cases :
    (b : SyncRequest) (d : SyncDevice) (now : ℕ) (log : List LogRow)
    → has_rebooted b d.last_uptime_ns ≡ false
    → (HasNoGap d now × (record_gap b d now log ≡ log))
      ⊎ ((r : LogRow) × (record_gap b d now log ≡ r ∷ log) × IsGap b d now r)
unfolding record_gap
record_gap_cases b d now log e = elim (Option-cases d.last_sync_at) [
  | inl n ↦ inl (never_synced n, rw n refl)
  | inr (from, s) ↦ elim (Option-cases d.last_uptime_ns) [
    | inl n ↦ inl (no_uptime n, rw (s, n) refl)
    | inr (last, u) ↦
        let up = subst (λ o. has_rebooted b o ≡ false) u e in
        elim (Bool-cases (ltb ((now - from) * 1000000) gap_min_ns)) [
          | inl q ↦ inl (short_gap from s (short_of (now - from) q), rw (s, u, up, q) refl)
          | inr q ↦ inr (
            gap_row d from ((now - from) * 1000000)
                (asleep_ns ((now - from) * 1000000) b.continuous_ns last),
            rw (s, u, up, q) refl,
            gap_row_lem b d now from last s u (long_of (now - from) q),
          )
        ]
  ]
]

-- A tick adds a power-on, stamped with the reported boot time, exactly when the uptime fell by more than
-- five seconds. Otherwise, after a silence of ten minutes or more it adds the account of it, as sleep if
-- two minutes or more of it are not matched by uptime; and it adds nothing exactly when the silence was
-- shorter, or the last check-in or its uptime is not known.
pub record_tick_log :
    (b : SyncRequest) (d : SyncDevice) (now : ℕ) (log : List LogRow)
    → let after = record_gap b d now (record_power_on b d log) in
      (has_rebooted b d.last_uptime_ns ≡ true)
        × ((r : LogRow) × (after ≡ r ∷ log)
            × (r.kind ≡ power_on)
            × (r.occurred_at ≡ b.system_boot_time))
      ⊎ (has_rebooted b d.last_uptime_ns ≡ false)
        × ((HasNoGap d now × (after ≡ log)) ⊎ ((r : LogRow) × (after ≡ r ∷ log) × IsGap b d now r))
record_tick_log b d now log = elim (Bool-cases (has_rebooted b d.last_uptime_ns)) [
  | inl e ↦
      let p = record_power_on_rebooted b d log e in
      inl (e, (p.0, record_gap_rebooted b d now (record_power_on b d log) e ∙ p.1, p.2, p.3))
  | inr e ↦ inr (e, rw (record_power_on_same b d log e) (record_gap_cases b d now log e))
]
