-- ===== src/History/Timeline.antt =====
-- apps/api/src/lib/history.ts: the lines of all devices, newest first.
use homeparentcontrol.Prelude.{
  ℕ, Bool, ◌&&◌, ◌||◌, List, [], ◌∷◌, ◌++◌, Option, leb, ltb, ◌==◌, if◌then◌else◌, map, filter, any,
  flat_map,
}
use homeparentcontrol.Prelude.Sort.{sort}
use homeparentcontrol.History.{
  HistoryRow, RawHistoryRow, DeviceContext, PolicyReason, RestrictionLookup,
}
use homeparentcontrol.History.Story.{Sequenced}
use homeparentcontrol.History.Device.{present_device}

-- The devices of the rows, in the order in which they are first met.
unfoldable pub devices_from : List ℕ → List RawHistoryRow → List ℕ
devices_from found [] = found
devices_from found (r ∷ rs) =
    devices_from (if any (λ d. d == r.device_id) found then found else found ++ (r.device_id ∷ []))
      rs

-- Newest first, and within one instant what came later in the story first.
abbrev pub newer : Sequenced → Sequenced → Bool
newer a b = ltb b.row.at a.row.at || ((a.row.at == b.row.at) && leb b.seq a.seq)

module _ (contexts : ℕ → DeviceContext) (reasons : ℕ → ℕ → Option PolicyReason)
    (restriction : RestrictionLookup) where
  unfoldable pub lines_of : List RawHistoryRow → List Sequenced
  lines_of rows =
      flat_map
        (λ d.
          present_device d reasons restriction (contexts d) (filter (λ r. r.device_id == d) rows))
        (devices_from [] rows)

  unfoldable pub present_history : List RawHistoryRow → List HistoryRow
  present_history rows = map (λ s. s.row) (sort newer (lines_of rows))
