-- ===== src/IoManager/Ready.antt =====
-- `cancelAll`, and `idle` with a report of epoll_wait; and the calls that abort.
use server_demo.Common.{
  ℕ, ◌≡◌, refl, sym, ap, ◌∙◌, subst, Bool, true, false, none, some, ◌++◌, get_elem?, arith,
  if◌then◌else◌,
}
use server_demo.IoManager.State.{
  Event, no_event, both, without, any, reading, writing, FdContext, IoManager, del, epoll_ctl,
}
use server_demo.IoManager.Events.{
  ok, abort, with_context, trigger_if, cancel_all_from, cancel_all, Report, real_events,
  handle_from, handle_report,
}
use server_demo.IoManager.Valid.{IsValid, context-Agrees, watched, events_of, events_at, Changed}
use server_demo.IoManager.Valid.{context_or_new}
use server_demo.IoManager.Report.{
  tasks_at, task_if, stepped, stepped-Changed, trigger_if_lem, release_if, release_if-Agrees, step,
  handle_from-Changed, registered_at,
}

-- A report of epoll_wait that, errors aside, names registered events only, and stands for at
-- least one, accepted by the kernel, on well-formed tables: the events it stands for are
-- registered no more, exactly the tasks that waited for them have been handed to their
-- schedulers, the reader first, neither another mask nor what waits for it has changed, and the
-- tables are well-formed.
pub handle_report-Changed :
    (fd : ℕ) (r : Report) (m : IoManager)
    → IsValid m
    → (r.ready.read ≡ true → (events_at m fd).read ≡ true)
    → (r.ready.write ≡ true → (events_at m fd).write ≡ true)
    → any (both (events_at m fd) (real_events r (events_at m fd))) ≡ true
    → (m' : IoManager) × (handle_report fd r true m ≡ ok true m')
      × Changed fd
          (without (events_at m fd) (real_events r (events_at m fd)))
          (tasks_at m fd (real_events r (events_at m fd)))
          m
          m'
unfolding handle_report
handle_report-Changed fd r m v hr hw hit =
    let (c, at) =
      registered_at fd m (both_any (events_at m fd) (real_events r (events_at m fd)) hit) in
    let same : events_at m fd ≡ c.events = ap events_of at in
    let (m', returns, changed) =
      handle_from-Changed fd r m c v at (λ h. sym (ap (λ (e : Event). e.read) same) ∙ hr h)
        (λ h. sym (ap (λ (e : Event). e.write) same) ∙ hw h)
        (sym (ap (λ e. any (both e (real_events r e))) same) ∙ hit) in
    (
      m',
      ap (λ o. with_context o m (handle_from fd r true m)) at ∙ returns,
      subst
          (λ o.
            Changed fd (without (events_of o) (real_events r (events_of o)))
              (task_if (real_events r (events_of o)).read (context_or_new o).read
                ++ task_if (real_events r (events_of o)).write (context_or_new o).write)
              m m')
          (sym at) changed,
    )
  where
    both_any : (e real : Event) → any (both e real) ≡ true → any e ≡ true
    both_any e real h = ground (arith, h)

write_kept : (r : Bool) (c : FdContext) → (release_if r reading c).events.write ≡ c.events.write
write_kept true c = ground arith
write_kept false c = refl

all_gone :
    (c : FdContext)
    → any (release_if c.events.write writing (release_if c.events.read reading c)).events ≡ false
all_gone c = ground arith

nothing_watched : (e : Event) → watched (without e e) ≡ none
nothing_watched e = ground arith

cancel_all_from-Changed :
    (fd : ℕ) (m : IoManager) (c : FdContext)
    → IsValid m
    → get_elem? m.contexts fd ≡ some c
    → any c.events ≡ true
    → (m' : IoManager) × (cancel_all_from fd true m c ≡ ok true m')
      × Changed fd
          (without c.events c.events)
          (task_if c.events.read c.read ++ task_if c.events.write c.write)
          m
          m'
unfolding cancel_all_from
cancel_all_from-Changed fd m c v at h =
    let epoll = epoll_ctl del fd no_event m.epoll in
    let told = record m { epoll = epoll } in
    let r = c.events.read in
    let w = c.events.write in
    let agrees = context-Agrees m fd c v at in
    let first = release_if r reading c in
    let after = step r reading fd c told in
    let finish = λ (c : FdContext) (m : IoManager). if any c.events then abort else ok true m in
    (
      stepped r w fd c told,
      rw h (
          trigger_if_lem r reading fd c told
            (λ c m. trigger_if c.events.write writing fd c m finish) agrees (λ k. k)
          ∙ ap (λ b. trigger_if b writing fd first after finish) (write_kept r c)
          ∙ trigger_if_lem w writing fd first after finish
              (release_if-Agrees r reading c agrees (λ k. k)) (λ k. write_kept r c ∙ k)
          ∙ ap (λ b. if b then abort else ok true (stepped r w fd c told)) (all_gone c)),
      stepped-Changed r w fd c m epoll v at (λ k. k) (λ k. k) h
          (λ x. ground (arith, nothing_watched c.events)),
    )

-- `cancelAll` of a descriptor with a registered event, accepted by the kernel, on well-formed
-- tables, returns true: the descriptor has no event any more, exactly the tasks that waited have
-- been handed to their schedulers, the reader first, no other mask has changed, and the tables
-- are well-formed.
pub cancel_all-Changed :
    (fd : ℕ) (m : IoManager)
    → IsValid m
    → any (events_at m fd) ≡ true
    → (m' : IoManager) × (cancel_all fd true m ≡ ok true m')
      × Changed fd no_event (tasks_at m fd (events_at m fd)) m m'
unfolding cancel_all
cancel_all-Changed fd m v h =
    let (c, at) = registered_at fd m h in
    let (m', returns, changed) =
      cancel_all_from-Changed fd m c v at (sym (ap (λ o. any (events_of o)) at) ∙ h) in
    (
      m',
      ap (λ o. with_context o m (cancel_all_from fd true m)) at ∙ returns,
      subst
          (λ o.
            Changed fd no_event
              (task_if (events_of o).read (context_or_new o).read
                ++ task_if (events_of o).write (context_or_new o).write)
              m m')
          (sym at)
          (subst
            (λ e.
              Changed fd e (task_if c.events.read c.read ++ task_if c.events.write c.write) m m')
            (nothing_left c.events) changed),
    )
  where
    nothing_left : (e : Event) → without e e ≡ no_event
    nothing_left e = ground arith
