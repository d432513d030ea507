-- ===== src/Access/Rotation/Closing.antt =====
-- apps/api/src/routes/credential.ts: the overlaps that ended are closed.
use homeparentcontrol.Prelude.{
  ℕ, ◌≡◌, refl, sym, ◌∙◌, ap, true, false, List, [], ◌∷◌, Option, none, some, map, arith, ◌==◌,
  filter, inl, inr, Bool-cases, All, All-map_imp,
}
use homeparentcontrol.Prelude.Members.{All-map, All-Memᴰ, filter-Memᴰ}
use mathlib.Core.List.{Memᴰ}
use homeparentcontrol.Access.{AccessDevice, ApiKey, AccessDb}
use homeparentcontrol.Access.Ending.{disable_key}
use homeparentcontrol.Access.Rotation.{is_stale, close_row, close_rows, close_expired_rotations}

-- The writes to one device, and to one key.
abbrev closed_by : List AccessDevice → AccessDevice → AccessDevice
closed_by [] d = d
closed_by (row ∷ rows) d = closed_by rows (close_row row.id d)

abbrev disabled_by : List AccessDevice → ApiKey → ApiKey
disabled_by [] k = k
disabled_by (row ∷ rows) k = disabled_by rows (disable_key row.previous_api_key_id k)

map-map : {A : Type 0} (f g : A → A) (xs : List A) → map f (map g xs) ≡ map (λ x. f (g x)) xs
map-map f g [] = refl
map-map f g (x ∷ xs) = ap (λ t. f (g x) ∷ t) (map-map f g xs)

map_same : {A : Type 0} (xs : List A) → map (λ x. x) xs ≡ xs
map_same [] = refl
map_same (x ∷ xs) = ap (λ t. x ∷ t) (map_same xs)

close_rows-devices :
    (rows : List AccessDevice) (db : AccessDb)
    → (close_rows rows db).devices ≡ map (closed_by rows) db.devices
unfolding close_rows
close_rows-devices [] db = sym (map_same db.devices)
close_rows-devices (row ∷ rows) db =
    close_rows-devices rows _ ∙ map-map (closed_by rows) (close_row row.id) db.devices

close_rows-keys :
    (rows : List AccessDevice) (db : AccessDb)
    → (close_rows rows db).keys ≡ map (disabled_by rows) db.keys
unfolding close_rows
close_rows-keys [] db = sym (map_same db.keys)
close_rows-keys (row ∷ rows) db =
    close_rows-keys rows _
    ∙ map-map (disabled_by rows) (disable_key row.previous_api_key_id) db.keys

-- A device that is not stale stays so.
close_row-fresh :
    (now id : ℕ) (d : AccessDevice) → is_stale now d ≡ false → is_stale now (close_row id d) ≡ false
close_row-fresh now id d h = elim (Bool-cases (d.id == id)) [ inl e ↦ rw e refl | inr e ↦ rw e h ]

closed_by-fresh :
    (now : ℕ) (rows : List AccessDevice) (d : AccessDevice)
    → is_stale now d ≡ false
    → is_stale now (closed_by rows d) ≡ false
closed_by-fresh now [] d h = h
closed_by-fresh now (row ∷ rows) d h = closed_by-fresh now rows _ (close_row-fresh now row.id d h)

close_row-id : (id : ℕ) (d : AccessDevice) → (close_row id d).id ≡ d.id
close_row-id id d = elim (Bool-cases (d.id == id)) [ inl e ↦ rw e refl | inr e ↦ rw e refl ]

close_row-own :
    (now : ℕ) (row d : AccessDevice) → d.id ≡ row.id → is_stale now (close_row row.id d) ≡ false
close_row-own now row d same = elim (Bool-cases (d.id == row.id)) [
  | inl e ↦ rw e refl
  | inr e ↦ absurd (ground (arith, e, same))
]

closed_by-mem :
    (now : ℕ) (row : AccessDevice) (rows : List AccessDevice) (d : AccessDevice)
    → Memᴰ row rows
    → d.id ≡ row.id
    → is_stale now (closed_by rows d) ≡ false
closed_by-mem now row [] d m e = elim m [ ]
closed_by-mem now row (r ∷ rows) d (Memᴰ.head h) e =
    closed_by-fresh now rows _ (close_row-own now r d (e ∙ ap (λ t. t.id) h))
closed_by-mem now row (r ∷ rows) d (Memᴰ.tail m) e =
    closed_by-mem now row rows _ m (close_row-id r.id d ∙ e)

-- A key that is disabled stays so.
disable_key-off :
    (o : Option ℕ) (k : ApiKey) → k.enabled ≡ false → (disable_key o k).enabled ≡ false
disable_key-off none k h = h
disable_key-off (some id) k h = elim (Bool-cases (k.id == id)) [
  | inl e ↦ rw e refl
  | inr e ↦ rw e h
]

disable_key-id : (o : Option ℕ) (k : ApiKey) → (disable_key o k).id ≡ k.id
disable_key-id none k = refl
disable_key-id (some id) k = elim (Bool-cases (k.id == id)) [
  | inl e ↦ rw e refl
  | inr e ↦ rw e refl
]

disabled_by-off :
    (rows : List AccessDevice) (k : ApiKey)
    → k.enabled ≡ false
    → (disabled_by rows k).enabled ≡ false
disabled_by-off [] k h = h
disabled_by-off (row ∷ rows) k h =
    disabled_by-off rows _ (disable_key-off row.previous_api_key_id k h)

disable_key-own : (o : Option ℕ) (k : ApiKey) → o ≡ some k.id → (disable_key o k).enabled ≡ false
disable_key-own none k h = absurd (ground (arith, h))
disable_key-own (some id) k h = elim (Bool-cases (k.id == id)) [
  | inl e ↦ rw e refl
  | inr e ↦ absurd (ground (arith, e, h))
]

disabled_by-id : (rows : List AccessDevice) (k : ApiKey) → (disabled_by rows k).id ≡ k.id
disabled_by-id [] k = refl
disabled_by-id (row ∷ rows) k = disabled_by-id rows _ ∙ disable_key-id row.previous_api_key_id k

disabled_by-mem :
    (row : AccessDevice) (rows : List AccessDevice) (k : ApiKey)
    → Memᴰ row rows
    → row.previous_api_key_id ≡ some k.id
    → (disabled_by rows k).enabled ≡ false
disabled_by-mem row [] k m e = elim m [ ]
disabled_by-mem row (r ∷ rows) k (Memᴰ.head h) e =
    disabled_by-off rows _
      (disable_key-own r.previous_api_key_id k (ap (λ t. t.previous_api_key_id) (sym h) ∙ e))
disabled_by-mem row (r ∷ rows) k (Memᴰ.tail m) e =
    disabled_by-mem row rows _ m (e ∙ ap some (sym (disable_key-id r.previous_api_key_id k)))

-- What the close of the overlaps leaves.
pub record AreClosed (now : ℕ) (before after : AccessDb) : Type 0 where
  pub devices : All (λ d. is_stale now d ≡ false) after.devices
  pub keys :
      All
        (λ d.
          is_stale now d ≡ true
          → All (λ k. d.previous_api_key_id ≡ some k.id → k.enabled ≡ false) after.keys)
        before.devices

-- After the close, at a time, no device has an overlap that ended before, and a key that such an overlap
-- was for is disabled.
pub close_expired_rotations-AreClosed :
    (now : ℕ) (db : AccessDb) → AreClosed now db (close_expired_rotations now db).0
unfolding close_expired_rotations
close_expired_rotations-AreClosed now db =
    let stale = filter (is_stale now) db.devices in
    record {
      devices = rw (close_rows-devices stale db) (
          All-map (λ d. is_stale now d ≡ false) (closed_by stale) db.devices
            (All-map_imp
              (λ d m. elim (Bool-cases (is_stale now d)) [
                | inl e ↦
                    closed_by-mem now d stale d (filter-Memᴰ (is_stale now) db.devices m e) refl
                | inr e ↦ closed_by-fresh now stale d e
              ])
              db.devices (All-Memᴰ db.devices)));
      keys = rw (close_rows-keys stale db) (
          All-map_imp
            (λ d m e.
              All-map (λ k. d.previous_api_key_id ≡ some k.id → k.enabled ≡ false)
                (disabled_by stale) db.keys
                (All-map_imp
                  (λ k m' p.
                    disabled_by-mem d stale k (filter-Memᴰ (is_stale now) db.devices m e)
                      (p ∙ ap some (disabled_by-id stale k)))
                  db.keys (All-Memᴰ db.keys)))
            db.devices (All-Memᴰ db.devices));
    }
