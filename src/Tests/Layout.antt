-- ===== src/Tests/Layout.antt =====
-- Arenas, codes and the decimal forms at concrete numbers.
use slotbus.Base.{◌≡◌, ◌≤◌, ◌%◌, arith}
use slotbus.Types.{slot_arenas}
use slotbus.Types.Arenas.{limit, IsApart, slot_arenas_fit, slot_arenas-IsApart}

slot_arenas_fit_example :
    let h = slot_arenas 1 2 192 in
    (limit h.request ≤ 192)
    × (limit h.response ≤ 192)
    × (h.request.offset % 8 ≡ 0)
    × (h.response.offset % 8 ≡ 0)
    × IsApart h.request h.response
    × (h.request.size ≤ h.response.size)
slot_arenas_fit_example = slot_arenas_fit 1 2 192 (omega arith) (omega arith)

slot_arenas-IsApart_example :
    let g = slot_arenas 0 2 192 in
    let h = slot_arenas 1 2 192 in
    IsApart g.request h.request
    × IsApart g.request h.response
    × IsApart g.response h.request
    × IsApart g.response h.response
slot_arenas-IsApart_example =
    slot_arenas-IsApart 0 1 2 192 (omega arith) (omega arith) (omega arith) (omega arith)
