-- ===== src/ServerController.antt =====
-- daemon/src/server_controller.cpp: the states of the server. The listeners' sockets and the signal
-- thread are outside.
use yonderboy.Prelude.{Bool, true, false, ℕ, bytes_eq, if◌then◌else◌}
use yonderboy.Prelude.Text.{codes}
use yonderboy.Macros.{ServerState, initializing, initialized, starting, running, shutting_down}
use yonderboy.Package.{get_value}
use yonderboy.Server.{M, ◌>>=◌, ◌>>◌, skip, modify, load_job}
use yonderboy.JobManager.{job_done}

abbrev set_state : ServerState → M (Unit {0})
set_state t = modify λ s. record s { state = t }

-- `start`, where each `startListening` succeeds.
unfoldable pub start : M (Unit {0})
start = do set_state starting; set_state running

unfoldable pub stop : M (Unit {0})
stop = do set_state shutting_down; set_state initialized

-- A signal has come through the pipe. Leaving the event loop is outside, here as in `doJob`.
unfoldable pub signal_pipe_callback : M (Unit {0})
unfolding stop
signal_pipe_callback = stop

-- `doJob`
unfoldable pub do_job : ℕ → M (Unit {0})
unfolding job_done stop
do_job job = do
  j ← load_job job
  if bytes_eq (get_value j.base (codes "command")) (codes "quit-server")
      then (do job_done job; stop)
      else skip

unfoldable pub allowed_to_block : ServerState → Bool
allowed_to_block initializing = true
allowed_to_block shutting_down = true
allowed_to_block starting = true
allowed_to_block _ = false
