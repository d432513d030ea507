-- ===== src/Projection/Idempotence/Rows.antt =====
-- apps/api/src/jobs/project.ts: the writes of one recomputation to the log, made twice, are made once.
use homeparentcontrol.Prelude.{◌≡◌, ◌≢◌, refl, List, [], ◌∷◌, arith, All, ◌==◌}
use homeparentcontrol.Prelude.Upsert.{upsert_by-twice, upsert_by-settled}
use homeparentcontrol.Projection.{EnforcementRow}
use homeparentcontrol.Projection.Buckets.{LogWrite, rewrite_row, write_row, write_rows}

-- Writes to the log of different events.
abbrev pub AreApart : List LogWrite → Type 0
AreApart [] = Unit
AreApart (w ∷ ws) = All (λ v. w.row.event_id ≢ v.row.event_id) ws × AreApart ws

abbrev IsWritten : List EnforcementRow → LogWrite → Type 0
IsWritten log w = write_row w log ≡ log

write_row-IsWritten : (w : LogWrite) (log : List EnforcementRow) → IsWritten (write_row w log) w
write_row-IsWritten w log =
    upsert_by-twice _ (rewrite_row w) w.row (λ x e. ground arith) (ground arith) (λ x. ground arith)
      (ground arith) log

IsWritten-write_row :
    (w v : LogWrite) (log : List EnforcementRow)
    → w.row.event_id ≢ v.row.event_id
    → IsWritten log w
    → IsWritten (write_row v log) w
IsWritten-write_row w v log n h =
    upsert_by-settled (λ r. r.event_id == w.row.event_id) (rewrite_row w) w.row
      (λ r. r.event_id == v.row.event_id) (rewrite_row v) v.row (λ x e. ground arith)
      (λ x e. ground arith) (ground arith) log h

IsWritten-write_rows :
    (w : LogWrite) (ws : List LogWrite) (log : List EnforcementRow)
    → All (λ v. w.row.event_id ≢ v.row.event_id) ws
    → IsWritten log w
    → IsWritten (write_rows ws log) w
unfolding write_rows
IsWritten-write_rows w [] log n h = h
IsWritten-write_rows w (v ∷ vs) log n h =
    IsWritten-write_rows w vs (write_row v log) n.1 (IsWritten-write_row w v log n.0 h)

-- All of the writes stand once they are made.
write_rows-All :
    (ws : List LogWrite) (log : List EnforcementRow)
    → AreApart ws
    → All (IsWritten (write_rows ws log)) ws
unfolding write_rows
write_rows-All [] log h = tt
write_rows-All (w ∷ ws) log h = (
  IsWritten-write_rows w ws (write_row w log) h.0 (write_row-IsWritten w log),
  write_rows-All ws (write_row w log) h.1,
)

write_rows_same :
    (ws : List LogWrite) (log : List EnforcementRow)
    → All (IsWritten log) ws
    → write_rows ws log ≡ log
unfolding write_rows
write_rows_same [] log h = refl
write_rows_same (w ∷ ws) log h = rw (h.0) (write_rows_same ws log h.1)

pub write_rows_again :
    (ws : List LogWrite) (log : List EnforcementRow)
    → AreApart ws
    → write_rows ws (write_rows ws log) ≡ write_rows ws log
write_rows_again ws log h = write_rows_same ws (write_rows ws log) (write_rows-All ws log h)
