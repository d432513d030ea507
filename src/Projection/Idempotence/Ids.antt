-- ===== src/Projection/Idempotence/Ids.antt =====
-- apps/api/src/jobs/project.ts: the events of a device have different ids, also when filtered and sorted.
use homeparentcontrol.Prelude.{
  ◌≡◌, ◌≢◌, sym, ◌∙◌, Bool, ◌&&◌, List, [], ◌∷◌, arith, filter, All, All-map_imp, All-filter,
  All-filter_self, All_of_Memᴰ, inl, inr, Bool-cases, ◌==◌,
}
use mathlib.Core.List.{Memᴰ}
use homeparentcontrol.Prelude.Sort.{sort, insert_sorted, sort-All, insert_sorted-All}
use homeparentcontrol.Prelude.Members.{All-zip}
use homeparentcontrol.Projection.{Event, Bucket}

-- Events of one device have different ids.
abbrev pub HaveDistinctIds : List Event → Type 0
HaveDistinctIds [] = Unit
HaveDistinctIds (e ∷ es) =
    All (λ f. e.device_id ≡ f.device_id → e.event_id ≢ f.event_id) es × HaveDistinctIds es

abbrev pub AreNew : List Event → Type 0
AreNew [] = Unit
AreNew (e ∷ es) = All (λ f. e.event_id ≢ f.event_id) es × AreNew es

pub filter-AreNew : (p : Event → Bool) (es : List Event) → AreNew es → AreNew (filter p es)
filter-AreNew p [] h = tt
filter-AreNew p (e ∷ es) h = elim (Bool-cases (p e)) [
  | inl q ↦ rw q (All-filter _ p es h.0, filter-AreNew p es h.1)
  | inr q ↦ rw q (filter-AreNew p es h.1)
]

insert_sorted-AreNew :
    (le : Event → Event → Bool) (e : Event) (es : List Event)
    → All (λ f. e.event_id ≢ f.event_id) es
    → AreNew es
    → AreNew (insert_sorted le e es)
unfolding insert_sorted
insert_sorted-AreNew le e [] n h = (tt, tt)
insert_sorted-AreNew le e (x ∷ xs) n h = elim (Bool-cases (le e x)) [
  | inl q ↦ rw q (n, h)
  | inr q ↦
      rw q
        (insert_sorted-All le _ e xs (λ r. n.0 (sym r)) h.0, insert_sorted-AreNew le e xs n.1 h.1)
]

pub sort-AreNew : (le : Event → Event → Bool) (es : List Event) → AreNew es → AreNew (sort le es)
unfolding sort
sort-AreNew le [] h = tt
sort-AreNew le (e ∷ es) h =
    insert_sorted-AreNew le e (sort le es) (sort-All le _ es h.0) (sort-AreNew le es h.1)

pub of_device-AreNew :
    (b : Bucket) (p : Event → Bool) (es : List Event)
    → HaveDistinctIds es
    → AreNew (filter (λ e. (e.device_id == b.device_id) && p e) es)
of_device-AreNew b p [] h = tt
of_device-AreNew b p (e ∷ es) h = elim (Bool-cases ((e.device_id == b.device_id) && p e)) [
  | inr q ↦ rw q (of_device-AreNew b p es h.1)
  | inl q ↦
      let own = λ (f : Event). (f.device_id == b.device_id) && p f in
      rw q (
        All-map_imp (λ f r. r.0 (ground (arith, r.1))) (filter own es)
            (All-zip _ _ (filter own es) (All-filter _ own es h.0) (All-filter_self own es)),
        of_device-AreNew b p es h.1,
      )
]

pub Memᴰ_eq :
    (es : List Event) (a c : Event)
    → AreNew es
    → Memᴰ a es
    → Memᴰ c es
    → a.event_id ≡ c.event_id
    → a ≡ c
Memᴰ_eq [] a c h m n q = elim m [ ]
Memᴰ_eq (e ∷ es) a c h (Memᴰ.head p) (Memᴰ.head r) q = p ∙ sym r
Memᴰ_eq (e ∷ es) a c h (Memᴰ.head p) (Memᴰ.tail n) q =
    absurd (All_of_Memᴰ (λ f. e.event_id ≢ f.event_id) es h.0 n (ground arith))
Memᴰ_eq (e ∷ es) a c h (Memᴰ.tail m) (Memᴰ.head r) q =
    absurd (All_of_Memᴰ (λ f. e.event_id ≢ f.event_id) es h.0 m (ground arith))
Memᴰ_eq (e ∷ es) a c h (Memᴰ.tail m) (Memᴰ.tail n) q = Memᴰ_eq es a c h.1 m n q
