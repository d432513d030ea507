-- ===== src/Access/Lifecycle/Devices.antt =====
-- apps/api/src/routes/enroll.ts, apps/api/src/routes/parent-setup.ts and
-- apps/api/src/routes/parent-devices.ts: when the table of devices is lawful, and the writes to it that
-- keep it so.
use homeparentcontrol.Prelude.{
  ℕ, ◌≤◌, ◌≡◌, sym, ◌∙◌, ap, subst, String, true, false, List, [], ◌∷◌, none, map, arith, All,
  All-map_imp,
}
use homeparentcontrol.Prelude.Members.{All-map}
use homeparentcontrol.Access.{AccessDevice, Enrolment, is_pending}
use homeparentcontrol.Access.Enrol.{is_live, is_hardware}
use homeparentcontrol.Access.Lifecycle.Codes.{open_codes}

-- A device and its codes: only one that is pending has a code that nobody used, and it has one at most
-- and no credential.
pub record IsFit (rows : List Enrolment) (d : AccessDevice) : Type 0 where
  pub unused : is_pending d.status ≡ false → open_codes d.id rows ≡ 0
  pub single : open_codes d.id rows ≤ 1
  pub bare : is_pending d.status ≡ true → (d.api_key_id ≡ none) × (d.previous_api_key_id ≡ none)

-- Two live registrations of a Mac are one device.
abbrev pub Agree : AccessDevice → AccessDevice → Type 0
Agree a b =
    is_live a.status ≡ true
    → is_live b.status ≡ true
    → (uuid : String) → is_hardware a.hardware_uuid uuid ≡ true
    → is_hardware b.hardware_uuid uuid ≡ true
    → a.id ≡ b.id

-- One row has an id.
abbrev pub IsRow : AccessDevice → AccessDevice → Type 0
IsRow a b = a.id ≡ b.id → a ≡ b

abbrev pub Pairs : (AccessDevice → AccessDevice → Type 0) → List AccessDevice → Type 0
Pairs R ds = All (λ a. All (R a) ds) ds

pub Pairs-map :
    (R S : AccessDevice → AccessDevice → Type 0) (f : AccessDevice → AccessDevice)
    (ds : List AccessDevice)
    → ((a b : AccessDevice) → R a b → S (f a) (f b))
    → Pairs R ds
    → Pairs S (map f ds)
Pairs-map R S f ds h p =
    All-map (λ a. All (S a) (map f ds)) f ds
      (All-map_imp (λ a q. All-map (S (f a)) f ds (All-map_imp (h a) ds q)) ds p)

-- An update that keeps the id.
pub IsRow-map :
    (f : AccessDevice → AccessDevice) (ds : List AccessDevice)
    → ((d : AccessDevice) → (f d).id ≡ d.id)
    → Pairs IsRow ds
    → Pairs IsRow (map f ds)
IsRow-map f ds h = Pairs-map IsRow IsRow f ds (λ a b r e. ap f (r (sym (h a) ∙ (e ∙ h b))))

-- An update that keeps the id and the hardware, and makes nothing live.
pub record IsQuiet (f : AccessDevice → AccessDevice) : Type 0 where
  pub id : (d : AccessDevice) → (f d).id ≡ d.id
  pub hardware : (d : AccessDevice) → (f d).hardware_uuid ≡ d.hardware_uuid
  pub live : (d : AccessDevice) → is_live (f d).status ≡ true → is_live d.status ≡ true

pub Agree-map :
    (f : AccessDevice → AccessDevice) (ds : List AccessDevice)
    → IsQuiet f
    → Pairs Agree ds
    → Pairs Agree (map f ds)
Agree-map f ds q = Pairs-map Agree Agree f ds (λ a b r la lb uuid ha hb.
    q.id a
    ∙ (r (q.live a la) (q.live b lb) uuid (subst (λ t. is_hardware t uuid ≡ true) (q.hardware a) ha)
          (subst (λ t. is_hardware t uuid ≡ true) (q.hardware b) hb)
        ∙ sym (q.id b)))

pub All-zip_with :
    {P Q S : AccessDevice → Type 0} (ds : List AccessDevice)
    → ((a : AccessDevice) → P a → Q a → S a)
    → All P ds
    → All Q ds
    → All S ds
All-zip_with [] f p q = tt
All-zip_with (d ∷ ds) f p q = (f d p.0 q.0, All-zip_with ds f p.1 q.1)

-- A new row.
pub Pairs-cons :
    (R : AccessDevice → AccessDevice → Type 0) (d : AccessDevice) (ds : List AccessDevice)
    → R d d
    → All (λ b. R d b × R b d) ds
    → Pairs R ds
    → Pairs R (d ∷ ds)
Pairs-cons R d ds r h p =
    ((r, All-map_imp (λ b q. q.0) ds h), All-zip_with ds (λ a q s. (q.1, s)) h p)

-- What holds of a row holds of all with its id.
pub All-row :
    (P : AccessDevice → Type 0) (d : AccessDevice) (ds : List AccessDevice)
    → All (IsRow d) ds
    → P d
    → All (λ b. d.id ≡ b.id → P b) ds
All-row P d ds h p = All-map_imp (λ b r e. subst P (r e) p) ds h

-- The tables of codes and of devices.
pub record AreLawful (rows : List Enrolment) (ds : List AccessDevice) : Type 0 where
  pub one_row : Pairs IsRow ds
  pub fit : All (IsFit rows) ds
  pub one_mac : Pairs Agree ds

pub IsFit-fewer :
    (rows rows' : List Enrolment)
    → ((id : ℕ) → open_codes id rows' ≤ open_codes id rows)
    → (d : AccessDevice) → IsFit rows d
    → IsFit rows' d
IsFit-fewer rows rows' h d f = record {
  unused = λ e. let a = f.unused e in let b = h d.id in omega arith;
  single = let a = f.single in let b = h d.id in omega arith;
  bare = f.bare;
}

pub AreLawful-fewer :
    (rows rows' : List Enrolment) (ds : List AccessDevice)
    → ((id : ℕ) → open_codes id rows' ≤ open_codes id rows)
    → AreLawful rows ds
    → AreLawful rows' ds
AreLawful-fewer rows rows' ds h l = record {
  one_row = l.one_row;
  fit = All-map_imp (IsFit-fewer rows rows' h) ds l.fit;
  one_mac = l.one_mac;
}

pub AreLawful-map :
    (rows rows' : List Enrolment) (f : AccessDevice → AccessDevice) (ds : List AccessDevice)
    → IsQuiet f
    → ((d : AccessDevice) → IsFit rows d → IsFit rows' (f d))
    → AreLawful rows ds
    → AreLawful rows' (map f ds)
AreLawful-map rows rows' f ds q h l = record {
  one_row = IsRow-map f ds q.id l.one_row;
  fit = All-map (IsFit rows') f ds (All-map_imp h ds l.fit);
  one_mac = Agree-map f ds q l.one_mac;
}
