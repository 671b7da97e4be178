-- ===== src/Runner/Processes.antt =====
-- TestRunner/ProcessManager.{h,cpp} on a POSIX system: the child processes of the test runner. The
-- system is a parameter, with the list of the children that have not been waited for. The mutex of the
-- launches, the echo of the output and the flags of the descriptors are left out.
pub mod Children
use my_iperf.Prelude.{
  ℕ, zero, suc, ◌+◌, ◌/◌, ◌≡◌, Text, text, Bytes, Bool, true, false, Option, none, some, List, [],
  ◌∷◌, ◌++◌, ◌==◌, ◌||◌, ◌&&◌, not, is_empty, if◌then◌else◌,
}
use my_iperf.Runner.{TestConfig}
use my_iperf.CommandLine.Arguments.{build_server_args, build_client_args}

-- Without the first `p`.
unfoldable pub without : ℕ → List ℕ → List ℕ
without p [] = []
without p (q ∷ qs) = let rest = without p qs in if q == p then qs else q ∷ rest

pub record System : Type 1 where
  pub World : Type 0
  pub children : World → List ℕ
  -- `IsExecutableResolvable`
  pub is_executable : Text → World → Bool
  -- `pipe`: the end to read from
  pub open_pipe : World → Option ℕ × World
  -- `fork`, after which the child calls `execvp` with these arguments and the pipe as its output
  pub spawn : List Text → World → Option ℕ × World
  -- `read`: `none` is an error, no bytes are the end
  pub read : ℕ → World → Option Bytes × World
  -- the pieces that `read` returns until the end or an error
  pub read_to_end : ℕ → World → List Bytes × World
  -- `waitpid(pid, &status, WNOHANG) == pid`
  pub poll : ℕ → World → Bool × World
  -- `waitpid(pid, nullptr, 0)`
  pub wait : ℕ → World → World
  -- `kill(pid, SIGTERM)`
  pub kill : ℕ → World → World
  pub close : ℕ → World → World
  -- the deadline of a loop has passed
  pub expired : World → Bool
  pub sleep : World → World
  pub children-open_pipe : (w : World) → children (open_pipe w).1 ≡ children w
  pub children-spawn_some :
      (args : List Text) (w v : World) (pid : ℕ)
      → spawn args w ≡ (some pid, v)
      → children v ≡ pid ∷ children w
  pub children-spawn_none :
      (args : List Text) (w v : World) → spawn args w ≡ (none, v) → children v ≡ children w
  pub children-read : (fd : ℕ) (w : World) → children (read fd w).1 ≡ children w
  pub children-read_to_end : (fd : ℕ) (w : World) → children (read_to_end fd w).1 ≡ children w
  pub children-poll_true :
      (pid : ℕ) (w v : World) → poll pid w ≡ (true, v) → children v ≡ without pid (children w)
  pub children-poll_false :
      (pid : ℕ) (w v : World) → poll pid w ≡ (false, v) → children v ≡ children w
  pub children-wait : (pid : ℕ) (w : World) → children (wait pid w) ≡ without pid (children w)
  pub children-kill : (pid : ℕ) (w : World) → children (kill pid w) ≡ children w
  pub children-close : (fd : ℕ) (w : World) → children (close fd w) ≡ children w
  pub children-sleep : (w : World) → children (sleep w) ≡ children w

-- `pid` and `pipeReadFd`, where -1 is `none`.
pub record ProcessHandles : Type 0 where
  pub pid : Option ℕ
  pub pipe_read_fd : Option ℕ
  pub startup_output : Text

unfoldable pub no_process : ProcessHandles
no_process = record { pid = none; pipe_read_fd = none; startup_output = [] }

-- `text.find(marker) != npos`
unfoldable pub starts_with : Text → Text → Bool
starts_with [] s = true
starts_with (m ∷ marker) [] = false
starts_with (m ∷ marker) (c ∷ s) = let rest = starts_with marker s in if m == c then rest else false

unfoldable pub contains : Text → Text → Bool
unfolding starts_with
contains marker [] = starts_with marker []
contains marker (c ∷ s) = starts_with marker (c ∷ s) || contains marker s

unfoldable pub has_server_ready_marker : Text → Bool
unfolding contains
has_server_ready_marker output =
    contains (text "Transitioning to state: ACCEPTING") output
    || contains (text "Server is running. Waiting for the test to complete") output

-- `output += buffer`, where `buffer` is read up to its first NUL.
unfoldable pub up_to_nul : Bytes → Text
up_to_nul [] = []
up_to_nul (c ∷ s) = let rest = up_to_nul s in if c == 0 then [] else c ∷ rest

unfoldable pub add_pieces : Text → List Bytes → Text
unfolding up_to_nul
add_pieces output [] = output
add_pieces output (piece ∷ pieces) = add_pieces (output ++ up_to_nul piece) pieces

module _ (system : System) where
  open system use {
    World, is_executable, open_pipe, spawn, read, read_to_end, poll, wait, kill, close, expired,
    sleep,
  }

  -- The end of a launch: the parent keeps the child and the end to read from.
  unfoldable pub launched : ℕ → ProcessHandles → Option ℕ × World → Bool × ProcessHandles × World
  launched fd h (none, w) = (false, h, close fd w)
  launched fd h (some pid, w) = (true, record h { pid = some pid; pipe_read_fd = some fd }, w)

  unfoldable pub launch_on :
      List Text → ProcessHandles → Option ℕ × World → Bool × ProcessHandles × World
  unfolding launched
  launch_on args h (none, w) = (false, h, w)
  launch_on args h (some fd, w) = launched fd h (spawn args w)

  -- The part that both kinds of launch share.
  unfoldable pub launch : Text → List Text → ProcessHandles → World → Bool × ProcessHandles × World
  unfolding launch_on
  launch path args h w =
      if is_executable path w then launch_on (path ∷ args) h (open_pipe w) else (false, h, w)

  unfoldable pub launch_ipeftc_server :
      Text → TestConfig → ProcessHandles → World → Bool × ProcessHandles × World
  unfolding launch build_server_args
  launch_ipeftc_server path config h w = launch path (build_server_args config) h w

  unfoldable pub launch_ipeftc_client :
      Text → TestConfig → ProcessHandles → World → Bool × ProcessHandles × World
  unfolding launch build_client_args
  launch_ipeftc_client path config h w = launch path (build_client_args config) h w

  unfoldable pub close_pipe : Option ℕ → World → World
  close_pipe none w = w
  close_pipe (some fd) w = close fd w

  unfoldable pub end_child : ProcessHandles → World → Option ℕ → ProcessHandles × World
  unfolding close_pipe
  end_child h w none = (record h { pipe_read_fd = none }, close_pipe h.pipe_read_fd w)
  end_child h w (some pid) = (
    record h { pid = none; pipe_read_fd = none },
    close_pipe h.pipe_read_fd (wait pid (kill pid w)),
  )

  unfoldable pub terminate_process : ProcessHandles → World → ProcessHandles × World
  unfolding end_child
  terminate_process h w = end_child h w h.pid

  -- What `read` returned in the loop of `WaitForServerReady`, and whether it was anything.
  unfoldable pub add_output : ProcessHandles → Option Bytes × World → Bool × ProcessHandles × World
  add_output h (none, w) = (false, h, w)
  add_output h (some output, w) =
      (not (is_empty output), record h { startup_output = h.startup_output ++ output }, w)

  unfoldable pub read_output : ProcessHandles → World → Option ℕ → Bool × ProcessHandles × World
  unfolding add_output
  read_output h w none = (false, h, w)
  read_output h w (some fd) = add_output h (read fd w)

  unfoldable pub timed_out : ProcessHandles → World → Bool × ProcessHandles × World
  timed_out h w = (
    false,
    record h {
      startup_output =
          h.startup_output ++ text "\n[ProcessManager] Timeout waiting for server readiness.\n";
    },
    w,
  )

  -- The end of a round, with the further rounds.
  unfoldable pub polled :
      (ProcessHandles → World → Bool × ProcessHandles × World)
      → ProcessHandles
      → Bool × World
      → Bool × ProcessHandles × World
  polled further h (true, w) = (
    false,
    record h {
      pid = none;
      startup_output =
          h.startup_output
          ++ text "\n[ProcessManager] Server process exited early during startup.\n";
    },
    w,
  )
  polled further h (false, w) = further h (sleep w)

  -- The loop of `WaitForServerReady` on the child `pid`.
  unfoldable pub ready_loop : ℕ → ℕ → ProcessHandles → World → Bool × ProcessHandles × World
  unfolding read_output timed_out polled has_server_ready_marker
  ready_loop zero pid h w = timed_out h w
  ready_loop (suc rounds) pid h w =
      let (got, h', v) = read_output h w h.pipe_read_fd in
      let ready = got && has_server_ready_marker h'.startup_output in
      let further = polled (ready_loop rounds pid) h' (poll pid v) in
      if expired w then timed_out h w else if ready then (true, h', v) else further

  -- A round sleeps for 50 ms, so there are no more rounds than that before the time is over. The call
  -- is made on a child that was launched.
  unfoldable pub wait_for_server_ready : ProcessHandles → ℕ → World → Bool × ProcessHandles × World
  unfolding ready_loop
  wait_for_server_ready h timeout_ms w = elim h.pid [
    | none ↦ (false, h, w)
    | some pid ↦ ready_loop (timeout_ms / 50 + 1) pid h w
  ]

  unfoldable pub pieces_of : Option ℕ → World → List Bytes × World
  pieces_of none w = ([], w)
  pieces_of (some fd) w = read_to_end fd w

  unfoldable pub wait_for : Option ℕ → World → World
  wait_for none w = w
  wait_for (some pid) w = wait pid w

  -- `WaitForProcessAndCaptureOutput`, on a child that was launched.
  unfoldable pub capture_output : ProcessHandles → World → Text × ProcessHandles × World
  unfolding close_pipe add_pieces pieces_of wait_for
  capture_output h w =
      let (pieces, v) = pieces_of h.pipe_read_fd w in
      (
        add_pieces h.startup_output pieces,
        record { pid = none; pipe_read_fd = none; startup_output = [] },
        close_pipe h.pipe_read_fd (wait_for h.pid v),
      )
