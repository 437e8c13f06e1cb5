-- ===== src/Timer/Manager.antt =====
-- `Timer` and `TimerManager`. Timers are shared objects: the manager's set holds addresses, and a
-- caller keeps one to cancel, refresh or reset its timer. A callback is a number that names it.
use server_demo.Common.{
  ℕ, suc, ◌+◌, ◌-◌, ◌%◌, ◌^◌, Bool, true, false, not, ◌&&◌, Option, none, some, List, [], ◌∷◌, ◌++◌,
  ltb, leb, ◌==◌, if◌then◌else◌,
}

pub record Timer : Type 0 where
  pub recurring : Bool
  pub ms : ℕ
  pub next : ℕ
  pub cb : Option ℕ

-- `m_timers` lists addresses in the order of the set. `next_address` is where the next timer will
-- stand, and `woken` counts the calls of `onTimerInsertedAtFront`.
pub record TimerManager : Type 0 where
  pub heap : ℕ → Timer
  pub timers : List ℕ
  pub tickled : Bool
  pub previouse_time : ℕ
  pub next_address : ℕ
  pub woken : ℕ

-- Sums and differences of uint64_t.
abbrev pub add64 : ℕ → ℕ → ℕ
add64 a b = (a + b) % 2 ^ 64

abbrev pub sub64 : ℕ → ℕ → ℕ
sub64 a b = (a + 2 ^ 64 - b) % 2 ^ 64

abbrev pub update : (ℕ → Timer) → ℕ → Timer → ℕ → Timer
update heap a t x = if x == a then t else heap x

-- Timer::Comparator. A pointer is null, or leads to a timer's `m_next` at its address.
abbrev pub comparator : Option (ℕ × ℕ) → Option (ℕ × ℕ) → Bool
comparator none none = false
comparator none (some r) = true
comparator (some l) none = false
comparator (some (l_next, l)) (some (r_next, r)) =
    if ltb l_next r_next then true else if ltb r_next l_next then false else ltb l r

abbrev pub less : (ℕ → Timer) → ℕ → ℕ → Bool
less heap a b = comparator (some ((heap a).next, a)) (some ((heap b).next, b))

-- set::insert, which leaves an equivalent element in place.
unfoldable pub insert : (ℕ → Timer) → ℕ → List ℕ → List ℕ
insert heap a [] = a ∷ []
insert heap a (x ∷ xs) =
    if less heap a x then a ∷ x ∷ xs else if less heap x a then x ∷ insert heap a xs else x ∷ xs

-- set::find and set::erase(it) in one: `none` where `find` gives `end()`.
unfoldable pub find_erase : (ℕ → Timer) → ℕ → List ℕ → Option (List ℕ)
find_erase heap a [] = none
find_erase heap a (x ∷ xs) =
    if not (less heap a x) && not (less heap x a)
    then some xs
    else elim (find_erase heap a xs) [ none ↦ none | some ys ↦ some (x ∷ ys) ]

abbrev pub heads : List ℕ → ℕ → Bool
heads [] a = false
heads (x ∷ xs) a = x == a

-- addTimer(val, lock): a timer at the front wakes the waiting thread once.
unfoldable pub add_timer_locked : ℕ → TimerManager → TimerManager
add_timer_locked a m =
    let timers = insert m.heap a m.timers in
    let at_front = heads timers a && not m.tickled in
    record m {
      timers = timers;
      tickled = if at_front then true else m.tickled;
      woken = if at_front then suc m.woken else m.woken;
    }

-- TimerManager::addTimer(ms, cb, recurring) at the time `now`: the manager and the new address.
unfoldable pub add_timer : ℕ → ℕ → Option ℕ → Bool → TimerManager → TimerManager × ℕ
add_timer now ms cb recurring m =
    let timer : Timer = record { recurring = recurring; ms = ms; next = add64 now ms; cb = cb } in
    let a = m.next_address in
    (add_timer_locked a (record m { heap = update m.heap a timer; next_address = suc a }), a)

-- A call returns, or it erases `end()`.
pub data Result : Type 0 where
  ok : Bool → TimerManager → Result
  fault : Result

abbrev pub drop_cb : Timer → Timer
drop_cb t = record t { cb = none }

-- Timer::cancel.
unfoldable pub cancel : ℕ → TimerManager → Result
cancel a m =
    let heap = update m.heap a (drop_cb (m.heap a)) in
    elim (m.heap a).cb [
      | none ↦ ok false m
      | some f ↦ elim (find_erase heap a m.timers) [
        | none ↦ fault
        | some timers ↦ ok true (record m { heap = heap; timers = timers })
      ]
    ]

-- Timer::refresh at the time `now`. `m_cb` is cleared and stays so.
unfoldable pub refresh : ℕ → ℕ → TimerManager → Result
refresh now a m =
    let t = drop_cb (m.heap a) in
    let heap = update m.heap a t in
    let heap' = update m.heap a (record t { next = add64 now t.ms }) in
    elim (m.heap a).cb [
      | none ↦ ok false m
      | some f ↦ elim (find_erase heap a m.timers) [
        | none ↦ ok false (record m { heap = heap })
        | some timers ↦ ok true (record m { heap = heap'; timers = insert heap' a timers })
      ]
    ]

-- Timer::reset(ms, from_now) at the time `now`.
unfoldable pub reset : ℕ → ℕ → Bool → ℕ → TimerManager → Result
reset now ms from_now a m =
    let t = drop_cb (m.heap a) in
    let heap = update m.heap a t in
    let start = if from_now then now else sub64 t.next t.ms in
    let heap' = update m.heap a (record t { ms = ms; next = add64 start ms }) in
    elim (m.heap a).cb [
      | none ↦ ok false m
      | some f ↦
          if ms == t.ms && not from_now then ok true m else elim (find_erase heap a m.timers) [
            | none ↦ ok false (record m { heap = heap })
            | some timers ↦
                ok true (add_timer_locked a (record m { heap = heap'; timers = timers }))
          ]
    ]

-- TimerManager::getNextTimer: how long to wait, ~0 for ever.
abbrev pub no_timer : ℕ
no_timer = 2 ^ 64 - 1

abbrev pub wait_for : (ℕ → Timer) → List ℕ → ℕ → ℕ
wait_for heap [] now = no_timer
wait_for heap (a ∷ rest) now = if leb (heap a).next now then 0 else (heap a).next - now

unfoldable pub get_next_timer : ℕ → TimerManager → ℕ × TimerManager
get_next_timer now m = (wait_for m.heap m.timers now, record m { tickled = false })

-- TimerManager::detectClockRollover: the clock went back by more than an hour.
abbrev pub rolled_over : ℕ → ℕ → Bool
rolled_over now previous = ltb now previous && ltb now (sub64 previous 3600000)

-- lower_bound(now_timer), for a timer that stands at the address `key`, and the loop behind it: the
-- timers in front of the iterator, and from it on.
unfoldable pub lower_bound : (ℕ → Timer) → ℕ → ℕ → List ℕ → List ℕ × List ℕ
lower_bound heap now key [] = ([], [])
lower_bound heap now key (x ∷ xs) =
    let further = lower_bound heap now key xs in
    if comparator (some ((heap x).next, x)) (some (now, key))
    then (x ∷ further.0, further.1)
    else ([], x ∷ xs)

unfoldable pub skip_equal : (ℕ → Timer) → ℕ → List ℕ → List ℕ × List ℕ
skip_equal heap now [] = ([], [])
skip_equal heap now (x ∷ xs) =
    let further = skip_equal heap now xs in
    if (heap x).next == now then (x ∷ further.0, further.1) else ([], x ∷ xs)

unfoldable pub split_expired : Bool → (ℕ → Timer) → ℕ → ℕ → List ℕ → List ℕ × List ℕ
split_expired rollover heap now key timers =
    let bound = lower_bound heap now key timers in
    let equal = skip_equal heap now bound.1 in
    if rollover then (timers, []) else (bound.0 ++ equal.0, equal.1)

-- The loop over the expired timers: their callbacks, and the heap and the set behind it.
unfoldable pub run_out : ℕ → List ℕ → (ℕ → Timer) → List ℕ → List (Option ℕ) × (ℕ → Timer) × List ℕ
run_out now [] heap timers = ([], heap, timers)
run_out now (a ∷ expired) heap timers =
    let t = heap a in
    let again = update heap a (record t { next = add64 now t.ms }) in
    let once = update heap a (drop_cb t) in
    let rest =
      run_out now expired (if t.recurring then again else once)
        (if t.recurring then insert again a timers else timers) in
    (t.cb ∷ rest.0, rest.1, rest.2)

-- The part of listExpiredCb behind the clock test.
abbrev pub expire : ℕ → ℕ → Bool → TimerManager → List (Option ℕ) × TimerManager
expire now key rollover m =
    let (expired, left) = split_expired rollover m.heap now key m.timers in
    let (cbs, heap, timers) = run_out now expired m.heap left in
    (cbs, record m { heap = heap; timers = timers })

-- The tests of listExpiredCb, on the timers of the set.
unfoldable pub check_expired : List ℕ → ℕ → ℕ → TimerManager → List (Option ℕ) × TimerManager
check_expired [] now key m = ([], m)
check_expired (first ∷ rest) now key m =
    let m' = record m { previouse_time = now } in
    let rollover = rolled_over now m.previouse_time in
    if not rollover && ltb now (m.heap first).next then ([], m') else expire now key rollover m'

-- TimerManager::listExpiredCb at the time `now`.
unfoldable pub list_expired_cb : ℕ → ℕ → TimerManager → List (Option ℕ) × TimerManager
list_expired_cb now key m = check_expired m.timers now key m

unfoldable pub has_timer : TimerManager → Bool
has_timer m = elim m.timers [ [] ↦ false | a ∷ rest ↦ true ]
