-- ===== src/Hook/Tests.antt =====
-- One socket on the descriptor 0, and the theorems at it.
use server_demo.Common.{
  ◌≡◌, refl, true, false, none, some, List, [], ◌∷◌, replicate, arith, ap, sym, if◌then◌else◌,
}
use server_demo.FdManager.Table.{FdCtx, receive, send, get, get_at, get_timeout, no_timeout}
use server_demo.IoManager.Tests.{one_reader, one_reader-IsValid}
use server_demo.Hook.Descriptors.{
  Hooks, is_nonblock, set_fl, set_fl_at, Kernel, do_io_entry, set_sock_timeout, fionbio, direct,
  loop, millis,
}
use server_demo.Hook.Flags.{FlagsSet, Obeys, set_fl-FlagsSet}
use server_demo.Hook.Entries.{Hooked, same_type, do_io_entry-set_sock_timeout, fionbio_entry}
use server_demo.Hook.DoIo.{
  Event, timed_out, adding, Io, eagain, failed, got, of_call, back, calls, adds, expires, fires,
  reports, resumes, io_step, on_call, on_add, on_resume, Reach, here, later, new_io,
}
use server_demo.Hook.Waits.{Settled, Reach-Settled}
use server_demo.Hook.Timeouts.{run_events, Lost, StaysLost, too_early, timeout_missed}
use server_demo.Hook.Returns.{Returns, Reach-Returns}
use server_demo.Hook.Untimed.{is_untimed, last_told, untimed_outcome}
use server_demo.Hook.Connect.{
  World, value, error, connect_entry, connect_entry_at, connect_entry_of, connect_with_timeout,
  connect_by, connect_loop, wait_for, ask,
}
use server_demo.Hook.Close.{Process}
use server_demo.Hook.Closed.{InUse, Closed, close-Closed}

abbrev socket : FdCtx
socket = record {
  is_init = true;
  is_socket = true;
  sys_nonblock = true;
  user_nonblock = false;
  is_closed = false;
  fd = 0;
  recv_timeout = no_timeout;
  send_timeout = no_timeout;
}

abbrev hooks : Hooks
hooks = record {
  enabled = true;
  fds = record { datas = some 0 ∷ replicate 63 none; heap = λ a. socket; next_address = 1 };
  flags = λ fd. 2050;
}

hooks-Hooked : Hooked 0 0 hooks
unfolding get get_at
hooks-Hooked = record { enabled = refl; found = refl; kept = refl }

-- The kernel takes the argument as it is.
abbrev stores : Kernel
stores old arg = some arg

stores-Obeys : Obeys stores
stores-Obeys = record { told = λ old arg v e. ap is_nonblock (sym (cc e)) }

-- F_SETFL with O_RDWR only: the kernel keeps O_NONBLOCK, and the caller does not see it.
abbrev set_hooks : Hooks
set_hooks = (set_fl stores 0 2 hooks).1

set_fl-FlagsSet_example : FlagsSet 0 2 hooks set_hooks
unfolding set_fl set_fl_at get get_at
set_fl-FlagsSet_example = set_fl-FlagsSet stores 0 2 hooks set_hooks stores-Obeys refl

-- A time-out of zero, with which the system would wait without an end.
do_io_entry-set_sock_timeout_example :
    do_io_entry 0 receive (set_sock_timeout 0 receive 0 0 hooks) ≡ (
      if socket.user_nonblock
      then direct
      else loop (if same_type receive receive then millis 0 0 else get_timeout receive socket))
do_io_entry-set_sock_timeout_example =
    do_io_entry-set_sock_timeout 0 0 receive receive 0 0 hooks hooks-Hooked

fionbio_entry_example :
    (do_io_entry 0 send (fionbio 0 false hooks)
      ≡ (if false then direct else loop (get_timeout send socket)))
    × (is_nonblock ((fionbio 0 false hooks).flags 0) ≡ false)
fionbio_entry_example = fionbio_entry 0 0 false send hooks hooks-Hooked

-- A read that finds nothing, waits, and then gets 7 bytes.
abbrev seven : Io
seven = record new_io { phase = back (of_call (got 7)) }

seven-Reach : Reach false new_io seven
unfolding io_step on_call on_add on_resume
seven-Reach =
    later (calls (got 7))
      (later resumes
        (later reports (later (adds none) (later (calls (failed eagain)) here refl) refl) refl)
        refl)
      refl

Reach-Settled_example : Settled seven.phase seven
Reach-Settled_example = Reach-Settled false seven-Reach

Reach-Returns_example : Returns false 3 seven
Reach-Returns_example = Reach-Returns false 3 seven-Reach

-- The events of the same read.
abbrev reads_seven : List Event
reads_seven = calls (failed eagain) ∷ adds none ∷ reports ∷ resumes ∷ calls (got 7) ∷ []

runs_seven : run_events false reads_seven new_io ≡ some seven
unfolding run_events io_step on_call on_add on_resume
runs_seven = refl

untimed_outcome_example :
    (of_call (got 7) ≡ last_told timed_out reads_seven) × (is_untimed (of_call (got 7)) ≡ true)
untimed_outcome_example = untimed_outcome reads_seven (of_call (got 7)) timed_out runs_seven refl

-- A second wait, with the callback of the first one still to run.
abbrev again : Io
again = record {
  phase = adding;
  timer = true;
  due = 1;
  cancelled = false;
  registered = false;
  queued = false;
}

again-Reach : Reach true new_io again
unfolding io_step on_call on_add on_resume
again-Reach =
    later (calls (failed eagain))
      (later resumes
        (later reports
          (later expires (later (adds none) (later (calls (failed eagain)) here refl) refl) refl)
          refl)
        refl)
      refl

timeout_missed_example :
    (mid : Io) × (run_events true too_early again ≡ some mid)
    × Lost mid
    × StaysLost (run_events true (fires ∷ []) mid)
timeout_missed_example = timeout_missed (fires ∷ []) again-Reach refl refl (refl, tt)

-- The event cannot be added, and SO_ERROR is still 0: connect returns 0.
abbrev unregistered : World
unregistered = record { connects = error 115; adds = false; fires = false; option = value 0 }

connects_unregistered : connect_with_timeout 0 5000 hooks unregistered ≡ value 0
unfolding connect_with_timeout connect_by connect_loop wait_for ask connect_entry connect_entry_at
    connect_entry_of get get_at
connects_unregistered = refl

abbrev process : Process
process = record { hooks = hooks; iom = some one_reader }

process-InUse : InUse 0 one_reader process
unfolding get get_at
process-InUse = record {
  enabled = refl;
  manager = refl;
  address = 0;
  found = refl;
  fds_valid = record { room = omega arith };
  io_valid = one_reader-IsValid;
  waited_for = refl;
}

close-Closed_example : Closed 0 one_reader process
close-Closed_example = close-Closed 0 one_reader process process-InUse
