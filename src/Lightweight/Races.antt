-- ===== src/Lightweight/Races.antt =====
-- What happens between a cancel and the end of the delay thread that it does not stop.
use egress_apikey.Prelude.{ℕ, ◌+◌, ◌≡◌, false, arith, none, some}
use egress_apikey.Lightweight.{
  normal, entering_lightweight, in_lightweight, to_u8, Controller, try_enter_lightweight,
  try_cancel_lightweight, timer_body,
}

-- Cancelling while the delay runs brings the state back to normal and drops the handle, and leaves
-- the window; but when the delay thread that was cancelled wakes, the window is destroyed all the
-- same, while the state says normal.
pub cancelled_timer_still_destroys :
    (i : ℕ) (c : Controller)
    → c.state ≡ to_u8 entering_lightweight
    → let after = (try_cancel_lightweight c).0 in
      (after.state ≡ to_u8 normal)
      × (after.timer ≡ none)
      × (after.window_open ≡ c.window_open)
      × ((timer_body i after).state ≡ to_u8 normal)
      × ((timer_body i after).window_open ≡ false)
      × ((timer_body i after).trims ≡ c.trims + 1)
unfolding try_cancel_lightweight timer_body
cancelled_timer_still_destroys i c h = ground arith

-- A thread left over from a cancelled delay ends the next delay: after a new close request, at
-- whatever time, its wake moves the controller to lightweight mode and drops the new handle.
pub stale_timer_ends_next_delay :
    (i now : ℕ) (c : Controller)
    → c.state ≡ to_u8 entering_lightweight
    → let again = (try_enter_lightweight now (try_cancel_lightweight c).0).0 in
      (again.state ≡ to_u8 entering_lightweight)
      × (again.timer ≡ some c.next_id)
      × ((timer_body i again).state ≡ to_u8 in_lightweight)
      × ((timer_body i again).timer ≡ none)
unfolding try_cancel_lightweight try_enter_lightweight timer_body
stale_timer_ends_next_delay i now c h = ground arith
