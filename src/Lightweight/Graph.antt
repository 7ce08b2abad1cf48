-- ===== src/Lightweight/Graph.antt =====
-- The state graph of the module comment, as a relation, and the methods against it.
use egress_apikey.Prelude.{ℕ, ◌≡◌, refl, ◌⊎◌, inl, arith}
use egress_apikey.Lightweight.{
  LightweightState, normal, entering_lightweight, in_lightweight, to_u8, from_u8, Controller,
  try_enter_lightweight, try_cancel_lightweight, try_exit_lightweight, timer_body,
  set_delay_minutes,
}

-- The documented arrows, on the stored bytes.
pub data Edge : ℕ → ℕ → Type 0 where
  close_requested : {s t : ℕ} → s ≡ to_u8 normal → t ≡ to_u8 entering_lightweight → Edge s t
  focus : {s t : ℕ} → s ≡ to_u8 entering_lightweight → t ≡ to_u8 normal → Edge s t
  timer_fires : {s t : ℕ} → s ≡ to_u8 entering_lightweight → t ≡ to_u8 in_lightweight → Edge s t
  tray_click : {s t : ℕ} → s ≡ to_u8 in_lightweight → t ≡ to_u8 normal → Edge s t

-- Every method and every timer, in every state.
pub data Event : Type 0 where
  enter : ℕ → Event
  cancel : Event
  timer : ℕ → Event
  exit : Event
  set_delay : ℕ → Event

pub step : Controller → Event → Controller
step c (enter now) = (try_enter_lightweight now c).0
step c cancel = (try_cancel_lightweight c).0
step c (timer i) = timer_body i c
step c exit = (try_exit_lightweight c).0
step c (set_delay minutes) = set_delay_minutes minutes c

-- A stored byte decodes to the state that was stored.
pub from_u8-to_u8 : (s : LightweightState) → from_u8 (to_u8 s) ≡ s
unfolding from_u8
from_u8-to_u8 normal = refl
from_u8-to_u8 entering_lightweight = refl
from_u8-to_u8 in_lightweight = refl

-- Whatever happens, the state stays or follows an arrow of the documented graph.
pub step-Edge :
    (c : Controller) (e : Event) → ((step c e).state ≡ c.state) ⊎ Edge c.state (step c e).state
unfolding step try_enter_lightweight try_cancel_lightweight timer_body try_exit_lightweight
    set_delay_minutes
step-Edge c (enter now) = grind (arith, close_requested)
step-Edge c cancel = grind (arith, focus)
step-Edge c (timer i) = grind (arith, timer_fires)
step-Edge c exit = grind (arith, tray_click)
step-Edge c (set_delay minutes) = inl refl
