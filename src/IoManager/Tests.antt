-- ===== src/IoManager/Tests.antt =====
-- The event tables of a new manager, and the theorems at concrete inputs.
use server_demo.Common.{
  ℕ, zero, suc, ◌≡◌, refl, sym, arith, get_elem?, true, Option, none, some, [], ◌∷◌, replicate,
}
use server_demo.IoManager.State.{
  Event, no_event, either, without, reading, writing, mask, callback, FdContext, new_context,
  IoManager,
}
use server_demo.IoManager.Events.{
  ok, abort, Caller, filled, add_event, cancel_event, Report, real_events, handle_report, add_to,
}
use server_demo.IoManager.Valid.{IsValid, Changed, watched_at, watched_at-grown, All-grown}
use server_demo.IoManager.Register.{waiting_at, add_event-Changed}
use server_demo.IoManager.Cancel.{cancel_event-add_event}
use server_demo.IoManager.Release.{cancel_event-Changed}
use server_demo.IoManager.Report.{tasks_at}
use server_demo.IoManager.Ready.{handle_report-Changed}
use server_demo.IoManager.Aborts.{handle_report-stale, both_ready}

-- A caller on the scheduler 1, in the fiber 5.
abbrev caller : Caller
caller = record { scheduler = some 1; fiber = 5; exec = true }

-- The callback 9 waits to read the descriptor 0.
abbrev reader : FdContext
reader = record {
  read = record { scheduler = some 1; fiber = none; cb = some 9 };
  write = record { scheduler = none; fiber = none; cb = none };
  events = mask reading;
}

abbrev told_reader : ℕ → Option Event
told_reader zero = some (mask reading)
told_reader (suc fd) = none

abbrev pub one_reader : IoManager
one_reader = record {
  contexts = reader ∷ replicate 31 new_context;
  pending = 1;
  epoll = told_reader;
  scheduled = [];
}

pub one_reader-IsValid : IsValid one_reader
one_reader-IsValid = record {
  room = omega arith;
  agree = (record { reads = (refl, refl); writes = refl }, All-grown [] 31 tt);
  kernel = kernel;
  counted = refl;
}
  where
    kernel : (fd : ℕ) → told_reader fd ≡ watched_at (get_elem? one_reader.contexts fd)
    kernel zero = refl
    kernel (suc fd) = sym (watched_at-grown [] 31 fd).1

-- A write that is added beside it.
add_writer : (m : IoManager) × (add_event 0 writing none caller true one_reader ≡ ok true m)
unfolding add_event add_to
add_writer = (_, refl)

add_event-Changed_example :
    (m : IoManager) × (add_event 0 writing none caller true one_reader ≡ ok true m)
    × Changed 0 (either (mask reading) (mask writing)) [] one_reader m
    × (waiting_at m 0 writing ≡ filled caller none)
add_event-Changed_example =
    add_event-Changed 0 writing none caller one_reader one_reader-IsValid refl refl refl

cancel_event-Changed_example :
    (m : IoManager) × (cancel_event 0 reading true one_reader ≡ ok true m)
    × Changed 0 (without (mask reading) (mask reading)) ((1, callback 9) ∷ []) one_reader m
cancel_event-Changed_example = cancel_event-Changed 0 reading one_reader one_reader-IsValid refl

-- An error on the descriptor wakes the reader.
abbrev error_report : Report
error_report = record { ready = no_event; error = true }

handle_report-Changed_example :
    (m : IoManager) × (handle_report 0 error_report true one_reader ≡ ok true m)
    × Changed 0
        (without (mask reading) (real_events error_report (mask reading)))
        (tasks_at one_reader 0 (real_events error_report (mask reading)))
        one_reader
        m
handle_report-Changed_example =
    handle_report-Changed 0 error_report one_reader one_reader-IsValid (λ h. refl)
      (λ h. absurd (cc)) refl

handle_report-stale_example : handle_report 0 both_ready true one_reader ≡ abort
handle_report-stale_example = handle_report-stale 0 one_reader one_reader-IsValid refl refl

cancel_event-add_event_example :
    (m m' : IoManager) × (add_event 40 writing (some 3) caller true one_reader ≡ ok true m)
    × (cancel_event 40 writing true m ≡ ok true m')
    × Changed 40 no_event ((1, callback 3) ∷ []) one_reader m'
cancel_event-add_event_example =
    cancel_event-add_event 40 3 1 writing caller one_reader one_reader-IsValid refl refl refl
