-- ===== src/Lightweight/Tests.antt =====
-- The controller with the default delay of ten minutes.
use egress_apikey.Prelude.{◌+◌, ◌≡◌, refl, ◌⊎◌, false, none, some}
use egress_apikey.Lightweight.{
  normal, to_u8, Controller, new, try_enter_lightweight, try_cancel_lightweight, timer_body,
}
use egress_apikey.Lightweight.Graph.{Edge, step, cancel, step-Edge}
use egress_apikey.Lightweight.Races.{cancelled_timer_still_destroys}

abbrev closing : Controller
closing = record (new 10) { state = 1; timer = some 0; next_id = 1 }

enters : (try_enter_lightweight 0 (new 10)).0.state ≡ 1
unfolding try_enter_lightweight
enters = refl

step-Edge_example : ((step closing cancel).state ≡ 1) ⊎ Edge 1 (step closing cancel).state
step-Edge_example = step-Edge closing cancel

cancelled_timer_still_destroys_example :
    let after = (try_cancel_lightweight closing).0 in
    (after.state ≡ to_u8 normal)
    × (after.timer ≡ none)
    × (after.window_open ≡ closing.window_open)
    × ((timer_body 0 after).state ≡ to_u8 normal)
    × ((timer_body 0 after).window_open ≡ false)
    × ((timer_body 0 after).trims ≡ closing.trims + 1)
cancelled_timer_still_destroys_example = cancelled_timer_still_destroys 0 closing refl
