-- ===== src/History/Order.antt =====
-- apps/api/src/lib/history.ts: the order of the history, and the rules in force at a moment.
use homeparentcontrol.Prelude.{ℕ, Bool, List, [], ◌∷◌, Option, map, arith, All-map_imp, leb}
use mathlib.Core.List.{Perm}
use mathlib.Core.List.Perm
use homeparentcontrol.Prelude.Sort.{sort, sort-perm, IsOrder, IsSorted, sort-IsSorted}
use homeparentcontrol.Prelude.Members.{All-map}
use homeparentcontrol.History.{
  HistoryRow, RawHistoryRow, DeviceContext, PolicyReason, RestrictionLookup,
}
use homeparentcontrol.History.Story.{Sequenced}
use homeparentcontrol.History.Timeline.{newer, lines_of, present_history}

newer-IsOrder : IsOrder newer
newer-IsOrder = record { total = λ a b. ground arith; trans = λ a b c p q. ground arith }

abbrev pub not_before : HistoryRow → HistoryRow → Bool
not_before a b = leb b.at a.at

map-IsSorted : (xs : List Sequenced) → IsSorted newer xs → IsSorted not_before (map (λ s. s.row) xs)
map-IsSorted [] h = tt
map-IsSorted (x ∷ xs) h =
    (All-map _ _ xs (All-map_imp (λ y p. ground arith) xs h.0), map-IsSorted xs h.1)

module _ (contexts : ℕ → DeviceContext) (reasons : ℕ → ℕ → Option PolicyReason)
    (restriction : RestrictionLookup) where
  -- The history is newest first, and its rows are just those told of each device.
  present_history_order :
      (rows : List RawHistoryRow)
      → IsSorted not_before (present_history contexts reasons restriction rows)
        × Perm
            (present_history contexts reasons restriction rows)
            (map (λ s. s.row) (lines_of contexts reasons restriction rows))
  unfolding present_history
  present_history_order rows =
      let lines = lines_of contexts reasons restriction rows in
      (
        map-IsSorted (sort newer lines) (sort-IsSorted newer-IsOrder lines),
        Perm.map (λ s. s.row) (sort-perm newer lines),
      )
