-- ===== src/History/Nights.antt =====
-- apps/api/src/lib/history.ts: each use during bedtime is found, and reported once a night.
use homeparentcontrol.Prelude.{
  ℕ, ◌≢◌, zero, suc, ◌+◌, ◌-◌, ◌*◌, ◌/◌, ◌≤◌, ◌<◌, ◌≡◌, refl, sym, ◌∙◌, true, false, List, [], ◌∷◌,
  ◌++◌, Option, none, some, arith, All, All-append, inl, inr, Bool-cases, eq_iff, eq_refl, subst,
  ap, is_some, leb, any,
}
use mathlib.Core.List.{Memᴰ}
use homeparentcontrol.History.{RestrictionLookup, bedtime_probe_ms}
use homeparentcontrol.History.Bedtime.{
  UnlockedSpan, Offence, Use, same_night, add_use, span_end, offence_of, use_or, first_use, use_in,
  uses_from,
}

-- Uses of different nights.
abbrev pub AreApart : List Use → Type 0
AreApart [] = Unit
AreApart (u ∷ us) = All (λ v. same_night u v ≡ false) us × AreApart us

AreApart-end :
    (us : List Use) (u : Use)
    → AreApart us
    → All (λ v. same_night v u ≡ false) us
    → AreApart (us ++ (u ∷ []))
AreApart-end [] u h n = (tt, tt)
AreApart-end (v ∷ vs) u h n = (All-append _ vs (u ∷ []) h.0 (n.0, tt), AreApart-end vs u h.1 n.1)

same_night-sym : (u v : Use) → same_night u v ≡ false → same_night v u ≡ false
same_night-sym u v q = ground (
  arith,
  eq_iff u.offence.window_id v.offence.window_id,
  eq_iff v.offence.window_id u.offence.window_id,
)

any-none :
    (u : Use) (us : List Use) → any (same_night u) us ≡ false → All (λ v. same_night v u ≡ false) us
any-none u [] e = tt
any-none u (v ∷ vs) e = elim (Bool-cases (same_night u v)) [
  | inl q ↦ absurd (ground arith)
  | inr q ↦ (same_night-sym u v q, any-none u vs (sym (rw q refl) ∙ e))
]

add_use-AreApart : (o : Option Use) (us : List Use) → AreApart us → AreApart (add_use o us)
add_use-AreApart none us h = h
add_use-AreApart (some u) us h = elim (Bool-cases (any (same_night u) us)) [
  | inl e ↦ rw e h
  | inr e ↦ rw e (AreApart-end us u h (any-none u us e))
]

same_night_self : (u : Use) → same_night u u ≡ true
same_night_self u = ground (arith, eq_refl u.offence.window_id)

any-append_left :
    (u : Use) (us vs : List Use)
    → any (same_night u) us ≡ true
    → any (same_night u) (us ++ vs) ≡ true
any-append_left u [] vs e = absurd (ground arith)
any-append_left u (x ∷ xs) vs e = elim (Bool-cases (same_night u x)) [
  | inl q ↦ ground arith
  | inr q ↦ ground (arith, any-append_left u xs vs)
]

any-append_end : (u : Use) (us : List Use) → any (same_night u) (us ++ (u ∷ [])) ≡ true
any-append_end u [] = rw (same_night_self u) refl
any-append_end u (x ∷ xs) = ground (arith, any-append_end u xs)

-- What was reported of a night stays.
add_use_keeps :
    (u : Use) (o : Option Use) (us : List Use)
    → any (same_night u) us ≡ true
    → any (same_night u) (add_use o us) ≡ true
add_use_keeps u none us h = h
add_use_keeps u (some v) us h = elim (Bool-cases (any (same_night v) us)) [
  | inl e ↦ rw e h
  | inr e ↦ rw e (any-append_left u us (v ∷ []) h)
]

add_use_adds : (u : Use) (us : List Use) → any (same_night u) (add_use (some u) us) ≡ true
add_use_adds u us = elim (Bool-cases (any (same_night u) us)) [
  | inl e ↦ rw (e, e) refl
  | inr e ↦ rw e (any-append_end u us)
]

in_range : (t end_ k : ℕ) → t + k * bedtime_probe_ms ≤ end_ → leb t end_ ≡ true
in_range t end_ k le = ground arith

enough_fuel :
    (start end_ k : ℕ)
    → start + k * bedtime_probe_ms ≤ end_
    → k < suc ((end_ - start) / bedtime_probe_ms)
enough_fuel start end_ k le = omega arith

later_probe : (t k : ℕ) → t + suc k * bedtime_probe_ms ≡ t + bedtime_probe_ms + k * bedtime_probe_ms
later_probe t k = omega arith

module _ (restriction : RestrictionLookup) where
  -- A use by the device, between two moments.
  record IsUse (device_id start moment : ℕ) (o : Option Use) : Type 0 where
    use_ : Use
    after : start ≤ use_.at
    found : o ≡ some use_
    device : use_.device_id ≡ device_id
    before : use_.at ≤ moment
    offends : offence_of restriction device_id use_.at ≡ some use_.offence

  none_offends :
      (device_id t : ℕ)
      → offence_of restriction device_id t ≡ none
      → is_some (offence_of restriction device_id t) ≢ true
  none_offends device_id t n h = absurd (ground (arith, ap is_some n, h))

  use_or-IsUse :
      (device_id t moment : ℕ) (o : Option Offence) (rest : Option Use)
      → offence_of restriction device_id t ≡ o
      → t ≤ moment
      → (o ≡ none → IsUse device_id t moment rest)
      → IsUse device_id t moment (use_or restriction device_id t o rest)
  use_or-IsUse device_id t moment none rest q le f = f refl
  use_or-IsUse device_id t moment (some o) rest q le f = record {
    use_ = record { device_id = device_id; at = t; offence = o };
    after = omega arith;
    found = refl;
    device = refl;
    before = le;
    offends = q;
  }

  earlier_start :
      (device_id t moment : ℕ) (o : Option Use)
      → IsUse device_id (t + bedtime_probe_ms) moment o
      → IsUse device_id t moment o
  earlier_start device_id t moment o u = record {
    use_ = u.use_;
    after = let a = u.after in omega arith;
    found = u.found;
    device = u.device;
    before = u.before;
    offends = u.offends;
  }

  first_use_lem :
      (k fuel device_id t end_ : ℕ)
      → k < fuel
      → t + k * bedtime_probe_ms ≤ end_
      → is_some (offence_of restriction device_id (t + k * bedtime_probe_ms)) ≡ true
      → IsUse device_id t (t + k * bedtime_probe_ms) (first_use restriction fuel device_id t end_)
  unfolding first_use
  first_use_lem k zero device_id t end_ lt le h = absurd (ground arith)
  first_use_lem zero (suc fuel) device_id t end_ lt le h =
      let rest = first_use restriction fuel device_id (t + bedtime_probe_ms) end_ in
      let inside = in_range t end_ 0 le in
      rw inside (
        use_or-IsUse device_id t (t + 0 * bedtime_probe_ms) (offence_of restriction device_id t)
          rest refl (omega arith)
          (λ n. absurd (
            none_offends device_id t n
              (subst (λ x. is_some (offence_of restriction device_id x) ≡ true) (omega arith) h))))
  first_use_lem (suc k) (suc fuel) device_id t end_ lt le h =
      let rest = first_use restriction fuel device_id (t + bedtime_probe_ms) end_ in
      let moment = t + suc k * bedtime_probe_ms in
      let later = later_probe t k in
      let inside = in_range t end_ (suc k) le in
      rw inside (
        use_or-IsUse device_id t moment (offence_of restriction device_id t) rest refl (omega arith)
          (λ n. earlier_start device_id t moment rest (
            subst (λ x. IsUse device_id (t + bedtime_probe_ms) x rest) (sym later)
              (first_use_lem k fuel device_id (t + bedtime_probe_ms) end_ (omega arith)
                (omega arith)
                (subst (λ x. is_some (offence_of restriction device_id x) ≡ true) later h)))))

  uses_from_keeps :
      (now : ℕ) (u : Use) (us : List Use) (spans : List UnlockedSpan)
      → any (same_night u) us ≡ true
      → any (same_night u) (uses_from restriction now us spans) ≡ true
  unfolding uses_from
  uses_from_keeps now u us [] h = h
  uses_from_keeps now u us (s ∷ ss) h =
      uses_from_keeps now u (add_use (use_in restriction now s) us) ss
        (add_use_keeps u (use_in restriction now s) us h)

  uses_from_finds :
      (now : ℕ) (s : UnlockedSpan) (u : Use) (us : List Use) (spans : List UnlockedSpan)
      → Memᴰ s spans
      → use_in restriction now s ≡ some u
      → any (same_night u) (uses_from restriction now us spans) ≡ true
  unfolding uses_from
  uses_from_finds now s u us [] m e = elim m [ ]
  uses_from_finds now s u us (x ∷ xs) (Memᴰ.head p) e =
      uses_from_keeps now u (add_use (use_in restriction now x) us) xs (
        subst (λ y. any (same_night u) (add_use y us) ≡ true)
          (sym e ∙ ap (use_in restriction now) p) (add_use_adds u us))
  uses_from_finds now s u us (x ∷ xs) (Memᴰ.tail m) e =
      uses_from_finds now s u (add_use (use_in restriction now x) us) xs m e

  uses_from-AreApart :
      (now : ℕ) (us : List Use) (spans : List UnlockedSpan)
      → AreApart us
      → AreApart (uses_from restriction now us spans)
  unfolding uses_from
  uses_from-AreApart now us [] h = h
  uses_from-AreApart now us (s ∷ ss) h =
      uses_from-AreApart now (add_use (use_in restriction now s) us) ss
        (add_use-AreApart (use_in restriction now s) us h)

  -- No device's use is reported twice for one night of a rule.
  uses_from_once :
      (now : ℕ) (spans : List UnlockedSpan) → AreApart (uses_from restriction now [] spans)
  uses_from_once now spans = uses_from-AreApart now [] spans tt

  -- A use by the device of the stretch, from its start to a moment, whose night is among the uses.
  pub record IsReported (s : UnlockedSpan) (moment : ℕ) (uses : List Use) : Type 0 where
    pub use_ : Use
    pub device : use_.device_id ≡ s.device_id
    pub after : s.started_at ≤ use_.at
    pub before : use_.at ≤ moment
    pub offends : offence_of restriction s.device_id use_.at ≡ some use_.offence
    pub reported : any (same_night use_) uses ≡ true

  -- Where any of the minutes of a stretch, counted from its start to its end or 24 hours on, offends
  -- against a rule, there is a use of that device within the stretch, at or before that minute, which
  -- is an offence, and whose own night is reported.
  pub uses_from_lem :
      (now k : ℕ) (s : UnlockedSpan) (spans : List UnlockedSpan)
      → Memᴰ s spans
      → s.started_at + k * bedtime_probe_ms ≤ span_end now s
      → is_some (offence_of restriction s.device_id (s.started_at + k * bedtime_probe_ms)) ≡ true
      → IsReported s (s.started_at + k * bedtime_probe_ms) (uses_from restriction now [] spans)
  uses_from_lem now k s spans m le h =
      let end_ = span_end now s in
      let u =
        first_use_lem k (suc ((end_ - s.started_at) / bedtime_probe_ms)) s.device_id s.started_at
          end_ (enough_fuel s.started_at end_ k le) le h in
      record {
        use_ = u.use_;
        device = u.device;
        after = u.after;
        before = u.before;
        offends = u.offends;
        reported = uses_from_finds now s u.use_ [] spans m u.found;
      }
