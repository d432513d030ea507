-- ===== src/Projection/Idempotence/Writes.antt =====
-- apps/api/src/jobs/project.ts: the writes of the events of a bucket are of different events.
use homeparentcontrol.Prelude.{
  ◌≡◌, ◌≢◌, refl, sym, ◌∙◌, eq_iff, String, Bool, true, ◌&&◌, List, [], ◌∷◌, ◌++◌, Option, none,
  some, arith, All, All-append, inl, inr, Bool-cases, Option-cases,
}
use homeparentcontrol.Projection.{Event, Payload, ProjectedDevice, Bucket, SessionState}
use homeparentcontrol.Projection.Buckets.{
  event_write, LogWrite, writes_of, unlocks_of, unlock_if, was_out, is_in, kind_of, kind_in,
  is_session,
}
use homeparentcontrol.Projection.Idempotence.Rows.{AreApart}
use homeparentcontrol.Projection.Idempotence.Ids.{AreNew}

abbrev pub IsSession : Event → Type 0
IsSession e = is_session e ≡ true

module _ (summarise : String → Payload → String) (collate : String → String → Bool)
    (d : ProjectedDevice) (b : Bucket) where
  pub writes_of-All :
      (P : LogWrite → Type 0) (Q : Event → Type 0)
      → ((e : Event) (k : String)
          → Q e
          → kind_of e.type ≡ some k
          → P (event_write summarise collate d b e k))
      → (es : List Event) → All Q es
      → All P (writes_of summarise collate d b es)
  unfolding writes_of
  writes_of-All P Q f [] h = tt
  writes_of-All P Q f (e ∷ es) h = elim (Option-cases (kind_of e.type)) [
    | inl n ↦ rw (n, writes_of) (writes_of-All P Q f es h.1)
    | inr (k, q) ↦ rw (q, writes_of) (f e k h.0 q, writes_of-All P Q f es h.1)
  ]

  pub writes_of-AreApart :
      (es : List Event) → AreNew es → AreApart (writes_of summarise collate d b es)
  unfolding writes_of
  writes_of-AreApart [] h = tt
  writes_of-AreApart (e ∷ es) h = elim (Option-cases (kind_of e.type)) [
    | inl n ↦ rw (n, writes_of) (writes_of-AreApart es h.1)
    | inr (k, q) ↦
        rw (q, writes_of)
          (
            writes_of-All (λ v. e.event_id ≢ v.row.event_id) (λ f. e.event_id ≢ f.event_id)
                (λ f j p r. p) es h.0,
            writes_of-AreApart es h.1,
          )
  ]

pub AreApart-append :
    (ws vs : List LogWrite)
    → AreApart ws
    → AreApart vs
    → All (λ w. All (λ v. w.row.event_id ≢ v.row.event_id) vs) ws
    → AreApart (ws ++ vs)
AreApart-append [] vs h k n = k
AreApart-append (w ∷ ws) vs h k n = (All-append _ ws vs h.0 n.0, AreApart-append ws vs h.1 k n.1)

unlock_if-All :
    (P : LogWrite → Type 0) (d : ProjectedDevice) (b : Bucket) (e : Event)
    (previous : Option SessionState) (to : SessionState)
    → ((w : LogWrite) → w.row.event_id ≡ e.event_id → P w)
    → All P (unlock_if d b e previous to)
unlock_if-All P d b e none to f = tt
unlock_if-All P d b e (some from) to f = elim (Bool-cases (was_out (some from) && is_in to)) [
  | inl q ↦ rw q (f _ refl, tt)
  | inr q ↦ rw q tt
]

unlock_if-AreApart :
    (d : ProjectedDevice) (b : Bucket) (e : Event) (previous : Option SessionState)
    (to : SessionState)
    → AreApart (unlock_if d b e previous to)
unlock_if-AreApart d b e none to = tt
unlock_if-AreApart d b e (some from) to = elim (Bool-cases (was_out (some from) && is_in to)) [
  | inl q ↦ rw q (tt, tt)
  | inr q ↦ rw q tt
]

module _ (d : ProjectedDevice) (b : Bucket) where
  pub unlocks_of-All :
      (P : LogWrite → Type 0) (Q : Event → Type 0)
      → ((e : Event) (w : LogWrite) → Q e → w.row.event_id ≡ e.event_id → P w)
      → (es : List Event) (previous : Option SessionState) → All Q es
      → All P (unlocks_of d b previous es)
  unfolding unlocks_of
  unlocks_of-All P Q f [] previous h = tt
  unlocks_of-All P Q f (e ∷ es) previous h = elim (Option-cases e.payload.session) [
    | inl n ↦ rw (n, unlocks_of) (unlocks_of-All P Q f es previous h.1)
    | inr (s, q) ↦
        rw (q, unlocks_of)
          (All-append P (unlock_if d b e previous s.state) (unlocks_of d b (some s.state) es)
            (unlock_if-All P d b e previous s.state (λ w r. f e w h.0 r))
            (unlocks_of-All P Q f es (some s.state) h.1))
  ]

  pub unlocks_of-AreApart :
      (es : List Event) (previous : Option SessionState)
      → AreNew es
      → AreApart (unlocks_of d b previous es)
  unfolding unlocks_of
  unlocks_of-AreApart [] previous h = tt
  unlocks_of-AreApart (e ∷ es) previous h = elim (Option-cases e.payload.session) [
    | inl n ↦ rw (n, unlocks_of) (unlocks_of-AreApart es previous h.1)
    | inr (s, q) ↦
        rw (q, unlocks_of)
          (AreApart-append (unlock_if d b e previous s.state) (unlocks_of d b (some s.state) es)
            (unlock_if-AreApart d b e previous s.state) (unlocks_of-AreApart es (some s.state) h.1)
            (unlock_if-All _ d b e previous s.state (λ w r.
              unlocks_of-All (λ v. w.row.event_id ≢ v.row.event_id) (λ f. e.event_id ≢ f.event_id)
                (λ f v n t u. n (sym r ∙ u ∙ t)) es (some s.state) h.0)))
  ]

-- An unlock is told by a sample of the session, which has no line of its own.
session_type : (e : Event) → IsSession e → e.type ≡ "session.state"
session_type e h = ground (arith, eq_iff e.type "session.state")

pub kind_of-session : (e : Event) → IsSession e → kind_of e.type ≡ none
unfolding kind_in
kind_of-session e h = rw (session_type e h) refl
