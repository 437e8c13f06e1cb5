-- ===== src/Scheduler/Tests.antt =====
-- A queue of three tasks, and the theorems at concrete inputs.
use server_demo.Common.{◌≡◌, refl, true, false, none, some, List, [], ◌∷◌, ◌==◌}
use server_demo.Scheduler.Queue.{FiberAndThread, Scheduler, picked, pick}
use server_demo.Scheduler.Pick.{Found, pick-Found}

-- A fiber for the thread 2, a fiber that runs, and a callback for any thread.
abbrev queue : List FiberAndThread
queue =
    record { fiber = some 4; cb = none; thread = some 2 }
    ∷ record { fiber = some 5; cb = none; thread = none }
    ∷ record { fiber = none; cb = some 6; thread = none }
    ∷ []

-- The thread 1 takes the callback, and tickles for the thread 2.
take_callback :
    pick 1 (λ f. f == 5) queue
    ≡ picked true (some (record { fiber = none; cb = some 6; thread = none })) (
        record { fiber = some 4; cb = none; thread = some 2 }
        ∷ record { fiber = some 5; cb = none; thread = none }
        ∷ [])
unfolding pick
take_callback = refl

pick-Found_example : Found 1 (λ f. f == 5) queue (pick 1 (λ f. f == 5) queue)
pick-Found_example = pick-Found 1 (λ f. f == 5) queue (refl, (refl, (refl, tt)))

abbrev idle : Scheduler
idle = record { fibers = []; active = 0; auto_stop = false; stopping = false }
