-- ===== src/Program/Sockets/Closed.antt =====
-- The sockets of the routes of src/tinyproxy.c over the ways through main.
use tinyproxy.Base.{◌≡◌, []}
use tinyproxy.Route.{Route}
use tinyproxy.Program.Start.{ProgramCalls, World, Ran, goto_out, runs_on}
use tinyproxy.Program.Sockets.{IsRunning}

module _ (calls : ProgramCalls) (runs : IsRunning calls) where
  -- Worlds before the first route starts.
  IsEarly : World → Type 0
  IsEarly w = (w.ctxs ≡ []) × (w.failed ≡ [])

  EarlyRan : Ran → Type 0
  EarlyRan (goto_out w) = IsEarly w
  EarlyRan (runs_on w) = IsEarly w
