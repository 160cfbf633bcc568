-- ===== src/Config/Watcher.antt =====
-- internal/config/watcher.go, and `StartWatcher` and `StopWatcher` of internal/config/config.go.
-- github.com/fsnotify/fsnotify is a parameter: what its calls return, and what the loop's `select`
-- receives, in the order in which it receives it. The callback is `Reload`.
pub mod HotReload
use pspxy.Base.{
  ◌≡◌, refl, Bool, true, false, not, ◌&&◌, ◌||◌, List, [], ◌∷◌, ◌++◌, Option, none, some,
  if◌then◌else◌, Text, Result, ok, err, any, all, arith,
}
use pspxy.Config.{Config}
use pspxy.Config.Manager.{Yaml, Env, Manager, with_defaults, load, reload, notify}

-- `is_done` tells that the channel `done` is closed.
pub record Watcher : Type 0 where
  pub is_done : Bool

-- The configuration's manager with the watcher it holds.
pub record Watched : Type 0 where
  pub mgr : Manager
  pub watcher : Option Watcher

-- What the select of the loop receives: an event of the file, with the tests for a write and for a
-- creation, an error, the end of either channel, or the end of `done`.
pub data Signal : Type 0 where
  file_event : Bool → Bool → Signal
  events_closed : Signal
  watch_error : Text → Signal
  errors_closed done : Signal

-- What `fsnotify.NewWatcher` and `Add` return.
unfoldable pub new_watcher : Option Text → Option Text → Result Text Watcher
new_watcher (some e) added = err e
new_watcher none (some e) = err e
new_watcher none none = ok (record { is_done = false })

watching : Watched → Result Text Watcher → Option Text × Watched
watching w (err e) = (some e, w)
watching w (ok x) = (none, record w { watcher = some x })

unfoldable pub start_watcher : Option Text → Option Text → Watched → Option Text × Watched
unfolding new_watcher watching
start_watcher created added w = watching w (new_watcher created added)

-- Closing a closed channel panics: no result.
unfoldable pub stop : Watcher → Option Watcher
stop x = if x.is_done then none else some (record { is_done = true })

stopped : Watched → Option Watcher → Option Watched
stopped w none = none
stopped w (some x) = some (record w { watcher = some x })

stop_held : Watched → Option Watcher → Option Watched
unfolding stop stopped
stop_held w none = some w
stop_held w (some x) = stopped w (stop x)

unfoldable pub stop_watcher : Watched → Option Watched
unfolding stop_held
stop_watcher w = stop_held w w.watcher

-- Somebody else writes or removes the file, or the loop receives a signal.
pub data Step : Type 0 where
  written : Option Text → Step
  received : Env → Signal → Step

-- One loop, until it returns.
pub record Loop : Type 0 where
  pub mgr : Manager
  pub running : Bool

module _ (y : Yaml) where
  -- One turn of the loop.
  unfoldable pub turn : Env → Signal → Loop → Loop
  turn env (file_event write create) l =
      if write || create then record l { mgr = (reload y env l.mgr).1 } else l
  turn env events_closed l = record l { running = false }
  turn env (watch_error e) l = l
  turn env errors_closed l = record l { running = false }
  turn env done l = record l { running = false }

  unfoldable pub step : Step → Loop → Loop
  unfolding turn
  step (written file) l = let m = l.mgr in record l { mgr = record m { file = file } }
  step (received env s) l = if l.running then turn env s l else l

  unfoldable pub loop : List Step → Loop → Loop
  unfolding step
  loop [] l = l
  loop (s ∷ ss) l = loop ss (step s l)
