-- ===== src/Lightweight.antt =====
-- src-tauri/src/lightweight.rs: the three-state controller that destroys the webview when idle.
-- Each method is one atomic step; the delay threads that it spawns are kept as a list of sleepers,
-- and a step of the environment wakes one. `on_timer_fire` is the callback of main.rs: it destroys
-- the window unless it is gone.
pub mod Graph
pub mod Races
mod Tests
use egress_apikey.Prelude.{
  ℕ, zero, suc, ◌+◌, max, Bool, true, false, Option, none, some, List, [], ◌∷◌, ◌==◌, leb,
  if◌then◌else◌,
}
use egress_apikey.Throttle
use egress_apikey.Throttle.{ThrottleParams}

pub data LightweightState : Type 0 where
  normal entering_lightweight in_lightweight : LightweightState

-- `as u8`
abbrev pub to_u8 : LightweightState → ℕ
to_u8 normal = 0
to_u8 entering_lightweight = 1
to_u8 in_lightweight = 2

unfoldable pub from_u8 : ℕ → LightweightState
from_u8 v =
    if v == 0
    then normal
    else if v == 1
    then entering_lightweight
    else if v == 2
    then in_lightweight
    else normal

abbrev pub delay_params : ThrottleParams
delay_params = Throttle.new 60

-- One spawned delay thread: its handle's id and the second at which its sleep ends.
pub record Sleeper : Type 0 where
  pub id : ℕ
  pub wakes_at : ℕ

-- `sleepers` and `next_id` are the threads of the process; `window_open` and `trims` are what
-- `on_timer_fire` acts on.
pub record Controller : Type 0 where
  pub state : ℕ
  pub timer : Option ℕ
  pub delay : ℕ
  pub sleepers : List Sleeper
  pub next_id : ℕ
  pub window_open : Bool
  pub trims : ℕ

abbrev pub new : ℕ → Controller
new delay = record {
  state = to_u8 normal;
  timer = none;
  delay = max delay 1;
  sleepers = [];
  next_id = 0;
  window_open = true;
  trims = 0;
}

-- `compare_exchange`: the new controller, and whether the exchange took place.
unfoldable pub compare_exchange :
    Controller → LightweightState → LightweightState → Controller × Bool
compare_exchange c current next =
    if c.state == to_u8 current then (record c { state = to_u8 next }, true) else (c, false)

-- `now` is the clock when the delay thread starts to sleep.
unfoldable pub try_enter_lightweight : ℕ → Controller → Controller × Bool
unfolding compare_exchange
try_enter_lightweight now c =
    let (c', won) = compare_exchange c normal entering_lightweight in
    let delay = (Throttle.delay_minutes delay_params c.delay).secs in
    if won
    then (
      record c' {
        timer = some c.next_id;
        sleepers = record { id = c.next_id; wakes_at = now + delay } ∷ c.sleepers;
        next_id = c.next_id + 1;
      },
      true,
    )
    else (c', false)

unfoldable pub try_cancel_lightweight : Controller → Controller × Bool
unfolding compare_exchange
try_cancel_lightweight c =
    let (c', won) = compare_exchange c entering_lightweight normal in
    if won then (record c' { timer = none }, true) else (c', false)

unfoldable pub transition_to_lightweight : Controller → Controller
unfolding compare_exchange
transition_to_lightweight c =
    let (c', won) = compare_exchange c entering_lightweight in_lightweight in
    record c' { timer = none }

unfoldable pub try_exit_lightweight : Controller → Controller × Bool
unfolding compare_exchange
try_exit_lightweight c = compare_exchange c in_lightweight normal

-- The callback that main.rs passes: destroy the main window if there is one, trim the working set.
unfoldable pub on_timer_fire : Controller → Controller
on_timer_fire c = record c { window_open = false; trims = c.trims + 1 }

without : ℕ → List Sleeper → List Sleeper
without i [] = []
without i (s ∷ ss) = let rest = without i ss in if s.id == i then rest else s ∷ rest

-- The end of a delay thread: the body of the closure given to `thread::spawn` after its sleep.
unfoldable pub timer_body : ℕ → Controller → Controller
unfolding transition_to_lightweight on_timer_fire without
timer_body i c =
    on_timer_fire (transition_to_lightweight (record c { sleepers = without i c.sleepers }))

unfoldable pub set_delay_minutes : ℕ → Controller → Controller
set_delay_minutes minutes c = record c { delay = minutes }
