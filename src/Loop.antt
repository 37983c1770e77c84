-- ===== src/Loop.antt =====
-- internal/app/app.go: `Run`, the loop that starts the cycles, and `Trigger`. What happens is a
-- sequence of events; which of them comes next is left open, as the `select` of the loop leaves it.
pub mod Requests
use cloud_route_manager.Base.{ℕ, Bool, true, false, ◌≡◌, Option, none, Error, ltb, if◌then◌else◌}
use cloud_route_manager.Time.{Duration, negative, nanoseconds}
use cloud_route_manager.App.{Outcome, returns, panics, Machine, App, run_once}

-- A request, the ticker, the two cycles of the loop, and its end.
pub data Event : Type 0 where
  request tick refresh scheduled cancelled : Event

abbrev pub is_positive : Duration → Bool
is_positive (negative n) = false
is_positive (nanoseconds n) = ltb 0 n

module _ (World : Type 0) where
  -- The loop: `pending` is whether the channel `trigger`, which holds one request, is full, and
  -- `ticked` whether the channel of the ticker is.
  pub record Loop : Type 0 where
    pub app : App World
    pub world : World
    pub pending : Bool
    pub ticked : Bool

  -- `Trigger`: a request is dropped if one is pending.
  unfoldable pub trigger : Loop → Loop
  trigger l = if l.pending then l else record l { pending = true }

  -- `Run` has returned, or it watches.
  pub data Running : Type 0 where
    exited : Option Error → Running
    watching : Loop → Running

  module _ (m : Machine World) where
    abbrev pub begun : Bool → Outcome (Option Error × App World × World) → Outcome Running
    begun pending panics = panics
    begun pending (returns (e, a, w)) =
        if is_positive a.cfg.general.interval
        then returns (watching (record { app = a; world = w; pending = pending; ticked = false }))
        else returns (exited e)

    -- `Run` up to its loop, with what is in the channel `trigger` by then.
    unfoldable pub run : Bool → App World → World → Outcome Running
    run pending a w = begun pending (run_once World m a w)

    -- The steps of the loop. Resetting the ticker drops a tick that was not received.
    pub data Step (l : Loop) : Event → Running → Type 0 where
      requests : Step l request (watching (trigger l))
      ticks : Step l tick (watching (record l { ticked = true }))
      refreshes :
          {e : Option Error} {a : App World} {w : World}
          → l.pending ≡ true
          → run_once World m l.app l.world ≡ returns (e, a, w)
          → Step l refresh
              (watching (record { app = a; world = w; pending = false; ticked = false }))
      runs :
          {e : Option Error} {a : App World} {w : World}
          → l.ticked ≡ true
          → run_once World m l.app l.world ≡ returns (e, a, w)
          → Step l scheduled
              (watching (record { app = a; world = w; pending = l.pending; ticked = false }))
      ends : Step l cancelled (exited none)
