-- ===== src/Sync/Tick.antt =====
-- apps/api/src/routes/sync.ts and apps/api/src/lib/tripwires.ts: the whole tick, and the counts.
use homeparentcontrol.Prelude.{
  if_same, ℕ, ◌+◌, ◌≡◌, ◌≢◌, ◌*◌, ltb, refl, sym, ◌∙◌, ap, Bool, true, false, ◌&&◌, String, List,
  [], ◌∷◌, ◌++◌, map, Option, some, arith, inl, inr, any, find, filter, All-find, All-of_forall,
  Bool-cases, Option-cases, if◌then◌else◌, ◌==◌, str_eq, not,
}
use homeparentcontrol.Prelude.Int.{distance}
use homeparentcontrol.Sync.{
  hardware_uuid_mismatch, network_time_disabled, clock_skew, timezone_mismatch, signature_invalid,
  kill_switch_present, policy_version_regression, agent_stopped_while_up, unexpected_source_ip,
  concurrent_boot_ids, LogRow, record_power_on, record_gap, kind_if, differs, regressed, same_time,
  is_false, SyncRequest, SyncDevice, SyncDb, handle_sync, record_tick, observe_device, Tripwire,
  TripwireKind, kind_eq, raise_tripwire, raise_all, tripped, DesiredItem, ItemStatus,
  item_unsupported, item_converged, is_pending, is_version, apply_reports, apply_convergence,
  mark_unsupported, observe,
}

-- How often a tripwire of a device was raised.
unfoldable pub occurrences_of : ℕ → TripwireKind → List Tripwire → ℕ
occurrences_of device_id kind [] = 0
occurrences_of device_id kind (t ∷ ts) =
    if (t.device_id == device_id) && kind_eq t.kind kind
    then t.occurrences
    else occurrences_of device_id kind ts

unfoldable pub one_if : Bool → ℕ
one_if b = if b then 1 else 0

unfoldable pub times : TripwireKind → List TripwireKind → ℕ
unfolding one_if
times k [] = 0
times k (j ∷ js) = one_if (kind_eq j k) + times k js

raise_tripwire-occurrences :
    (now id : ℕ) (kind k : TripwireKind) (ts : List Tripwire)
    → occurrences_of id k (raise_tripwire now id kind ts)
      ≡ one_if (kind_eq kind k) + occurrences_of id k ts
unfolding raise_tripwire occurrences_of one_if
raise_tripwire-occurrences now id kind k [] = ground arith
raise_tripwire-occurrences now id kind k (t ∷ ts) =
    elim (Bool-cases ((t.device_id == id) && kind_eq t.kind kind)) [
      | inl e ↦ rw e (ground arith)
      | inr e ↦ rw e (ground (arith, raise_tripwire-occurrences now id kind k ts))
    ]

-- Is the item reported as unsupported?
unfoldable pub is_reported : ℕ → DesiredItem → ℕ × String → Bool
is_reported device_id i (id, status) =
    str_eq status "unsupported" && ((i.id == id) && (i.device_id == device_id))

-- One pass over the items: what becomes of a status.
unfoldable settled_status : SyncRequest → ℕ → DesiredItem → ItemStatus
settled_status b device_id i =
    if any (is_reported device_id i) b.converged
    then item_unsupported
    else if (i.device_id == device_id)
        && str_eq i.kind "agent_version"
        && is_pending i.status
        && is_version i.spec_version b.agent_version
    then item_converged
    else i.status

unfoldable pub settled : SyncRequest → ℕ → DesiredItem → DesiredItem
unfolding is_reported settled_status
settled b device_id i = record i { status = settled_status b device_id i }

raise_all-occurrences :
    (now id : ℕ) (kinds : List TripwireKind) (k : TripwireKind) (ts : List Tripwire)
    → occurrences_of id k (raise_all now id kinds ts) ≡ times k kinds + occurrences_of id k ts
unfolding raise_all times
raise_all-occurrences now id [] k ts = omega arith
raise_all-occurrences now id (j ∷ js) k ts =
    rw
      (
        raise_all-occurrences now id js k (raise_tripwire now id j ts),
        raise_tripwire-occurrences now id j k ts,
      )
      (omega arith)

raise_tripwire-other :
    (now id other : ℕ) (kind k : TripwireKind) (ts : List Tripwire)
    → id ≢ other
    → occurrences_of other k (raise_tripwire now id kind ts) ≡ occurrences_of other k ts
unfolding raise_tripwire occurrences_of
raise_tripwire-other now id other kind k [] n = ground arith
raise_tripwire-other now id other kind k (t ∷ ts) n =
    elim (Bool-cases ((t.device_id == id) && kind_eq t.kind kind)) [
      | inl e ↦ rw e (ground arith)
      | inr e ↦ rw e (ground (arith, raise_tripwire-other now id other kind k ts n))
    ]

raise_all-other :
    (now id other : ℕ) (kinds : List TripwireKind) (k : TripwireKind) (ts : List Tripwire)
    → id ≢ other
    → occurrences_of other k (raise_all now id kinds ts) ≡ occurrences_of other k ts
unfolding raise_all
raise_all-other now id other [] k ts n = refl
raise_all-other now id other (j ∷ js) k ts n =
    raise_all-other now id other js k (raise_tripwire now id j ts) n
    ∙ raise_tripwire-other now id other j k ts n

times-append :
    (k : TripwireKind) (xs ys : List TripwireKind) → times k (xs ++ ys) ≡ times k xs + times k ys
unfolding times
times-append k [] ys = omega arith
times-append k (x ∷ xs) ys = omega (arith, times-append k xs ys)

times-kind_if :
    (k : TripwireKind) (b : Bool) (j : TripwireKind)
    → times k (kind_if b j) ≡ one_if b * one_if (kind_eq j k)
unfolding times one_if
times-kind_if k true j = omega arith
times-kind_if k false j = omega arith

ruleset counts = (times-append, times-kind_if)

-- Does the request set off the tripwire?
unfoldable pub is_tripped : SyncRequest → SyncDevice → ℕ → TripwireKind → Bool
is_tripped b d now hardware_uuid_mismatch = differs d.hardware_uuid b.hardware_uuid
is_tripped b d now network_time_disabled = not b.using_network_time
is_tripped b d now clock_skew = ltb 60000 (distance b.local_utc now)
is_tripped b d now timezone_mismatch = not (str_eq b.system_timezone b.policy_timezone)
is_tripped b d now signature_invalid = is_false b.signature_valid
is_tripped b d now kill_switch_present = b.kill_switch
is_tripped b d now policy_version_regression = regressed b.policy_version d.applied_policy_version
is_tripped b d now agent_stopped_while_up =
    b.clean_exit_previous_run && same_time d.system_boot_time b.system_boot_time
is_tripped b d now unexpected_source_ip = false
is_tripped b d now concurrent_boot_ids = false

tripped_once :
    (b : SyncRequest) (d : SyncDevice) (now : ℕ) (k : TripwireKind)
    → times k (tripped b d now) ≡ one_if (is_tripped b d now k)
unfolding tripped is_tripped one_if
tripped_once b d now hardware_uuid_mismatch = simp counts (omega arith)
tripped_once b d now network_time_disabled = simp counts (omega arith)
tripped_once b d now clock_skew = simp counts (omega arith)
tripped_once b d now timezone_mismatch = simp counts (omega arith)
tripped_once b d now signature_invalid = simp counts (omega arith)
tripped_once b d now kill_switch_present = simp counts (omega arith)
tripped_once b d now policy_version_regression = simp counts (omega arith)
tripped_once b d now agent_stopped_while_up = simp counts (omega arith)
tripped_once b d now unexpected_source_ip = simp counts (omega arith)
tripped_once b d now concurrent_boot_ids = simp counts (omega arith)

mark_unsupported-pass :
    (id : ℕ) (r : ℕ × String) (i : DesiredItem)
    → mark_unsupported id r i
      ≡ (if is_reported id i r then record i { status = item_unsupported } else i)
unfolding is_reported
mark_unsupported-pass id (n, s) i = refl

unfoldable settle_reports : ℕ → List (ℕ × String) → DesiredItem → DesiredItem
settle_reports id rs i =
    if any (is_reported id i) rs then record i { status = item_unsupported } else i

settle_reports-step :
    (id : ℕ) (r : ℕ × String) (rs : List (ℕ × String)) (i : DesiredItem)
    → settle_reports id rs (mark_unsupported id r i) ≡ settle_reports id (r ∷ rs) i
unfolding settle_reports is_reported
settle_reports-step id (n, s) rs i =
    elim (Bool-cases (str_eq s "unsupported" && ((i.id == n) && (i.device_id == id)))) [
      | inl e ↦ rw e (
          if_same (any (is_reported id (record i { status = item_unsupported })) rs)
            (record i { status = item_unsupported }))
      | inr e ↦ rw e refl
    ]

map-ext2 {ℓ} :
    {A : Type ℓ} (f g h : A → A)
    → ((a : A) → f (g a) ≡ h a)
    → (xs : List A) → map f (map g xs) ≡ map h xs
map-ext2 f g h p [] = refl
map-ext2 f g h p (x ∷ xs) = rw (p x, map-ext2 f g h p xs) refl

map-same {ℓ} : {A : Type ℓ} (f : A → A) → ((a : A) → f a ≡ a) → (xs : List A) → xs ≡ map f xs
map-same f p [] = refl
map-same f p (x ∷ xs) = rw (p x, sym (map-same f p xs)) refl

apply_reports-one_pass :
    (id : ℕ) (rs : List (ℕ × String)) (items : List DesiredItem)
    → apply_reports id rs items ≡ map (settle_reports id rs) items
unfolding apply_reports settle_reports
apply_reports-one_pass id [] items = map-same (settle_reports id []) (λ i. refl) items
apply_reports-one_pass id (r ∷ rs) items =
    apply_reports-one_pass id rs (map (mark_unsupported id r) items)
    ∙ map-ext2 (settle_reports id rs) (mark_unsupported id r) (settle_reports id (r ∷ rs))
        (settle_reports-step id r rs) items

settled_lem :
    (b : SyncRequest) (id : ℕ) (i : DesiredItem)
    → observe b id (settle_reports id b.converged i) ≡ settled b id i
unfolding settled settled_status settle_reports
settled_lem b id i = elim (Bool-cases (any (is_reported id i) b.converged)) [
  | inl e ↦ rw e (ground arith)
  | inr e ↦ rw e (ground arith)
]

-- Applying the reports one after another and then observing the agent's version changes only the
-- status of an item, and that as one look at it tells: it is `unsupported` if some report says so of
-- this item of this device, whatever else holds; otherwise it is `converged` if the item is the
-- device's, asks for an agent's version, is pending, and the agent is seen to run that version;
-- otherwise it stays.
pub apply_convergence_once :
    (b : SyncRequest) (id : ℕ) (items : List DesiredItem)
    → apply_convergence b id items ≡ map (settled b id) items
unfolding apply_convergence
apply_convergence_once b id items = rw (apply_reports-one_pass id b.converged items) (
    map-ext2 (observe b id) (settle_reports id b.converged) (settled b id) (settled_lem b id) items)

-- A request raises each tripwire of its device once if the request trips it, and leaves the count as
-- it was if not.
pub tripwires_once :
    (b : SyncRequest) (d : SyncDevice) (now : ℕ) (k : TripwireKind) (ts : List Tripwire)
    → occurrences_of d.id k (raise_all now d.id (tripped b d now) ts)
      ≡ one_if (is_tripped b d now k) + occurrences_of d.id k ts
tripwires_once b d now k ts =
    rw (raise_all-occurrences now d.id (tripped b d now) k ts, tripped_once b d now k) refl

abbrev pub log_of : ℕ → List LogRow → List LogRow
log_of id rows = filter (λ r. r.device_id == id) rows

abbrev pub items_of : ℕ → List DesiredItem → List DesiredItem
items_of id items = filter (λ i. i.device_id == id) items

-- Nothing that is kept of the device differs.
abbrev pub IsSameFor : ℕ → SyncDb → SyncDb → Type 0
IsSameFor other db after =
    ((k : TripwireKind)
      → occurrences_of other k after.tripwires ≡ occurrences_of other k db.tripwires)
    × (log_of other after.log ≡ log_of other db.log)
    × (items_of other after.items ≡ items_of other db.items)
    × (find (λ d. d.id == other) after.devices ≡ find (λ d. d.id == other) db.devices)

power_on-other :
    (b : SyncRequest) (d : SyncDevice) (other : ℕ) (log : List LogRow)
    → d.id ≢ other
    → log_of other (record_power_on b d log) ≡ log_of other log
unfolding record_power_on
power_on-other b d other log n = ground arith

gap-other :
    (b : SyncRequest) (d : SyncDevice) (now other : ℕ) (log : List LogRow)
    → d.id ≢ other
    → log_of other (record_gap b d now log) ≡ log_of other log
unfolding record_gap
gap-other b d now other log n = ground arith

settled-device :
    (b : SyncRequest) (id : ℕ) (i : DesiredItem) → (settled b id i).device_id ≡ i.device_id
unfolding settled settled_status
settled-device b id i = ground arith

unowned-any :
    (id : ℕ) (i : DesiredItem) (rs : List (ℕ × String))
    → (i.device_id == id) ≡ false
    → any (is_reported id i) rs ≡ false
unfolding is_reported
unowned-any id i [] e = refl
unowned-any id i ((n, s) ∷ rs) e = ground (arith, unowned-any id i rs e)

settled-unowned :
    (b : SyncRequest) (id : ℕ) (i : DesiredItem) → (i.device_id == id) ≡ false → settled b id i ≡ i
unfolding settled settled_status
settled-unowned b id i e = rw (unowned-any id i b.converged e, e) refl

settled_other :
    (b : SyncRequest) (id other : ℕ) (items : List DesiredItem)
    → id ≢ other
    → items_of other (map (settled b id) items) ≡ items_of other items
unfolding settled settled_status is_reported
settled_other b id other [] n = refl
settled_other b id other (i ∷ items) n = elim (Bool-cases (i.device_id == id)) [
  | inl e ↦
      let mine : (i.device_id == other) ≡ false = ground arith in
      rw (settled-device b id i, mine) (settled_other b id other items n)
  | inr e ↦
      rw (settled-unowned b id i e)
        (ap (λ t. if i.device_id == other then i ∷ t else t) (settled_other b id other items n))
]

observed_other :
    (b : SyncRequest) (id now other : ℕ) (devices : List SyncDevice)
    → id ≢ other
    → find
        (λ d. d.id == other)
        (map (λ x. if x.id == id then observe_device b now x else x) devices)
      ≡ find (λ d. d.id == other) devices
unfolding observe_device
observed_other b id now other [] n = refl
observed_other b id now other (d ∷ ds) n = elim (Bool-cases (d.id == id)) [
  | inl e ↦ rw e (ground (arith, observed_other b id now other ds n))
  | inr e ↦
      rw e (ap (λ t. if d.id == other then some d else t) (observed_other b id now other ds n))
]

unchanged : (other : ℕ) (db : SyncDb) → IsSameFor other db db
unchanged other db = ((λ k. refl), refl, refl, refl)

found_id :
    (id : ℕ) (ds : List SyncDevice) (d : SyncDevice)
    → find (λ d. d.id == id) ds ≡ some d
    → (d.id == id) ≡ true
found_id id ds d f =
    (All-find (λ d. d ≡ d) (λ d. d.id == id) ds d (All-of_forall (λ d. d ≡ d) (λ d. refl) ds) f).0

recorded_others :
    (b : SyncRequest) (d : SyncDevice) (now other : ℕ) (db : SyncDb)
    → d.id ≢ other
    → IsSameFor other db (record_tick b d now db)
unfolding record_tick
recorded_others b d now other db n = (
  (λ k. raise_all-other now d.id other (tripped b d now) k db.tripwires n),
  gap-other b d now other (record_power_on b d db.log) n ∙ power_on-other b d other db.log n,
  ap (items_of other) (apply_convergence_once b d.id db.items)
      ∙ settled_other b d.id other db.items n,
  observed_other b d.id now other db.devices n,
)

module _ (has_key : Bool) where
  -- A tick of one device changes nothing that the server keeps of another: not the counts of its
  -- tripwires, its log, its desired items or its row.
  pub handle_sync_others :
      (id other : ℕ) (request : Option SyncRequest) (now : ℕ) (db : SyncDb)
      → id ≢ other
      → IsSameFor other db (handle_sync has_key id request now db).0
  unfolding handle_sync record_tick
  handle_sync_others id other request now db n = elim (Option-cases request) [
    | inl e ↦ rw e (unchanged other db)
    | inr (b, e) ↦ elim (Bool-cases (b.device_id == id)) [
      | inr m ↦ rw (e, m) (unchanged other db)
      | inl m ↦ elim (Option-cases (find (λ d. d.id == id) db.devices)) [
        | inl f ↦ rw (e, m, f) (unchanged other db)
        | inr (d, f) ↦
            rw (e, m, f)
              (recorded_others b d now other db (ground (arith, (found_id id db.devices d f))))
      ]
    ]
  ]
