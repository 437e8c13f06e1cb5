-- ===== src/Reactor/Tests.antt =====
-- A round with a timer that is due, and the theorems at concrete inputs.
use server_demo.Common.{
  ◌≡◌, ◌↔◌, refl, sym, true, false, if◌then◌else◌, Option, none, some, List, [], ◌∷◌, replicate,
  arith,
}
use server_demo.Timer.Manager.{TimerManager}
use server_demo.Timer.Invariant
use server_demo.IoManager.State.{new_context}
use server_demo.Reactor.Round.{
  Reactor, Ready, descriptor, exits, round, wait_time, wake_up, dispatch, handle_all,
}
use server_demo.Reactor.Wait.{expected, wait_time-expected}
use server_demo.Reactor.Exit.{is_exit, Quiet, is_exit-round}
use server_demo.IoManager.State.{IoManager, mask, reading}
use server_demo.IoManager.Valid
use server_demo.IoManager.Tests.{one_reader}

abbrev timers : TimerManager
timers = record {
  heap = λ a. record { recurring = false; ms = 50; next = 70; cb = some 7 };
  timers = 0 ∷ [];
  tickled = false;
  previouse_time = 20;
  next_address = 1;
  woken = 0;
}

abbrev reactor : Reactor
reactor = record {
  id = 1;
  events = record {
    contexts = replicate 32 new_context;
    pending = 0;
    epoll = λ fd. none;
    scheduled = [];
  };
  timers = timers;
  sched = record { fibers = []; active = 0; auto_stop = true; stopping = true };
  idle = 1;
  wakes = 0;
}

wait_time-expected_example : wait_time 2 7000 ≡ expected 7000
wait_time-expected_example = wait_time-expected 2 7000

-- Beside the timer, a callback of this scheduler waits to read the descriptor 0, which is ready.
abbrev busy : Reactor
busy = record reactor { events = one_reader }

abbrev reports : List Ready
reports = wake_up ∷ descriptor 0 (record { ready = mask reading; error = false }) true ∷ []

abbrev otherwise : Option IoManager → IoManager
otherwise none = one_reader
otherwise (some m) = m

abbrev after : IoManager
after = otherwise (handle_all reports one_reader)

-- Without timers and events, the scheduler stopped.
abbrev idle : Reactor
idle = record reactor { timers = record timers { timers = [] } }

idle-IsValid : Valid.IsValid idle.events
idle-IsValid = record {
  room = omega arith;
  agree = Valid.All-grown [] 32 tt;
  kernel = λ fd. sym (Valid.watched_at-grown [] 32 fd).1;
  counted = refl;
}

is_exit-round_example :
    ((is_exit (round 20 80 9 [] idle) ≡ true) ↔ Quiet idle)
    × (round 20 80 9 [] idle ≡ (
        let r' = record idle { timers = record idle.timers { tickled = false } } in
        if is_exit (round 20 80 9 [] idle) then exits r' else dispatch 80 9 [] r'))
is_exit-round_example = is_exit-round 20 80 9 [] idle tt idle-IsValid (omega arith)
