-- ===== src/Server/Build.antt =====
-- internal/server/deploy.go, pendingBuild: the log of a build in progress. Each function is one
-- critical section under the build's mutex.
pub mod Laws
use nnel.Base.{ℕ, ◌-◌, ltb, Bool, true, List, [], ◌∷◌, ◌++◌, Text, length, drop, if◌then◌else◌}
use nnel.Server.State.{PendingBuild}

unfoldable pub append_line : Text → PendingBuild → PendingBuild
append_line line b = record b { lines = b.lines ++ line ∷ [] }

unfoldable pub finish : Text → PendingBuild → PendingBuild
finish err_msg b = record b { err_msg = err_msg; done = true }

-- At most the last 50 lines, the error and whether the build is done.
unfoldable pub snapshot : PendingBuild → List Text × Text × Bool
snapshot b = (
  (if ltb 50 (length b.lines) then drop (length b.lines - 50) b.lines else b.lines),
  b.err_msg,
  b.done,
)

-- The scanner's loop over the output of the build.
unfoldable pub append_lines : List Text → PendingBuild → PendingBuild
unfolding append_line
append_lines [] b = b
append_lines (line ∷ lines) b = append_lines lines (append_line line b)
