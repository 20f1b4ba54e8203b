-- ===== src/Program/Signals.antt =====
-- src/signals.c.
use tinyproxy.Base.{Bool, true, false, not, List, [], ◌∷◌, Option, none, some, if◌then◌else◌}

-- The events of `struct signal_events`: whether each pointer is not NULL.
pub record SignalEvents : Type 0 where
  pub sigint_ev : Bool
  pub sigterm_ev : Bool

-- Whether both calls of evsignal_new and both of event_add succeed.
pub record SignalCalls : Type 0 where
  pub new_sigint : Bool
  pub new_sigterm : Bool
  pub add_sigint : Bool
  pub add_sigterm : Bool

-- The pointers given to event_free: false for NULL.
unfoldable pub free_signal_handlers : SignalEvents → List Bool
free_signal_handlers signals = signals.sigint_ev ∷ signals.sigterm_ev ∷ []

-- With pointers that are not NULL: `none` for 0, or the pointers that were given to event_free before
-- the return of -1.
unfoldable pub setup_signal_handlers : SignalCalls → Option (List Bool)
unfolding free_signal_handlers
setup_signal_handlers calls =
    if not calls.new_sigint
    then some (free_signal_handlers (record { sigint_ev = false; sigterm_ev = false }))
    else if not calls.new_sigterm
    then some (free_signal_handlers (record { sigint_ev = true; sigterm_ev = false }))
    else if not calls.add_sigint
    then some (free_signal_handlers (record { sigint_ev = true; sigterm_ev = true }))
    else if not calls.add_sigterm
    then some (free_signal_handlers (record { sigint_ev = true; sigterm_ev = true }))
    else none
