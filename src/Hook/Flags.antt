-- ===== src/Hook/Flags.antt =====
-- The two views of O_NONBLOCK: the caller's and the kernel's.
use server_demo.Common.{
  ℕ, ◌≡◌, ◌≢◌, refl, sym, ap, ◌∙◌, subst, Bool, true, false, Option, none, some, if◌then◌else◌,
  arith, Bool-cases, inl, inr, get_elem?, List,
}
use server_demo.FdManager.Table.{FdCtx, FdManager, write_heap}
use server_demo.FdManager.Laws.{held, lookup, get-lookup}
use server_demo.Hook.Descriptors.{
  Hooks, unasked, pointer, find_ctx, set_ctx, is_nonblock, choose_nonblock, is_kept, Kernel,
  put_flags, sys_set_fl, set_fl_at, set_fl, get_fl_at, get_fl,
}

pub is_nonblock-choose : (b : Bool) (arg : ℕ) → is_nonblock (choose_nonblock b arg) ≡ b
is_nonblock-choose true arg = ground arith
is_nonblock-choose false arg = ground arith

pub find_ctx-lookup : (fd : ℕ) (h : Hooks) → find_ctx fd h ≡ lookup h.fds fd
find_ctx-lookup fd h = ap pointer (get-lookup unasked fd h.fds)

-- A change of a context leaves the table as it is.
pub find_ctx-set_ctx :
    (fd a : ℕ) (c : FdCtx) (h : Hooks) → find_ctx fd (set_ctx a c h) ≡ find_ctx fd h
find_ctx-set_ctx fd a c h = find_ctx-lookup fd (set_ctx a c h) ∙ sym (find_ctx-lookup fd h)

-- What the kernel's O_NONBLOCK is after F_SETFL, and the caller's view of the descriptor.
abbrev pub kernel_nonblock_at : Option ℕ → ℕ → Hooks → Bool
kernel_nonblock_at none arg h = is_nonblock arg
kernel_nonblock_at (some a) arg h =
    if is_kept (h.fds.heap a) then (h.fds.heap a).sys_nonblock else is_nonblock arg

abbrev pub kernel_nonblock : ℕ → ℕ → Hooks → Bool
kernel_nonblock fd arg h = kernel_nonblock_at (find_ctx fd h) arg h

pub record FlagsSet (fd arg : ℕ) (h h' : Hooks) : Type 0 where
  pub seen : is_nonblock (get_fl fd h') ≡ is_nonblock arg
  pub kept : is_nonblock (h'.flags fd) ≡ kernel_nonblock fd arg h
  pub others : (d : ℕ) → d ≢ fd → h'.flags d ≡ h.flags d

-- The kernel sets O_NONBLOCK as it is told.
pub record Obeys (kernel : Kernel) : Type 0 where
  pub told : (old arg v : ℕ) → kernel old arg ≡ some v → is_nonblock v ≡ is_nonblock arg

record Told (fd arg : ℕ) (h h' : Hooks) : Type 0 where
  flag : is_nonblock (h'.flags fd) ≡ is_nonblock arg
  rest : (d : ℕ) → d ≢ fd → h'.flags d ≡ h.flags d
  table : h'.fds ≡ h.fds

put_flags-Told :
    (fd arg : ℕ) (o : Option ℕ) (h h' : Hooks)
    → put_flags fd o h ≡ (true, h')
    → ((v : ℕ) → o ≡ some v → is_nonblock v ≡ is_nonblock arg)
    → Told fd arg h h'
put_flags-Told fd arg none h h' e k = cc
put_flags-Told fd arg (some v) h h' e k =
    subst (Told fd arg h) (ap (λ (r : Bool × Hooks). r.1) e)
      (record { flag = ground (arith, k v refl); rest = λ d ne. ground (arith, ne); table = refl })

set_fl_at-kept :
    (a : ℕ) (kernel : Kernel) (fd arg : ℕ) (h : Hooks)
    → set_fl_at (some a) kernel fd arg h ≡ (
        let c = h.fds.heap a in
        if is_kept c
        then sys_set_fl kernel fd
            (choose_nonblock c.sys_nonblock arg)
            (set_ctx a (record c { user_nonblock = is_nonblock arg }) h)
        else sys_set_fl kernel fd arg h)
unfolding set_fl_at
set_fl_at-kept a kernel fd arg h = refl

pub written : (heap : ℕ → FdCtx) (a : ℕ) (c : FdCtx) → write_heap heap a c a ≡ c
written heap a c = ground arith

-- F_GETFL through a context, by what the context tells.
get_fl_at-ctx :
    (a fd : ℕ) (h : Hooks) (c : FdCtx)
    → h.fds.heap a ≡ c
    → get_fl_at (some a) fd h
      ≡ (if is_kept c then choose_nonblock c.user_nonblock (h.flags fd) else h.flags fd)
unfolding get_fl_at
get_fl_at-ctx a fd h c e =
    ap
      (λ (c : FdCtx).
        if is_kept c then choose_nonblock c.user_nonblock (h.flags fd) else h.flags fd)
      e

record SetAt (o : Option ℕ) (fd arg : ℕ) (h h' : Hooks) : Type 0 where
  seen : is_nonblock (get_fl_at o fd h') ≡ is_nonblock arg
  kept : is_nonblock (h'.flags fd) ≡ kernel_nonblock_at o arg h
  others : (d : ℕ) → d ≢ fd → h'.flags d ≡ h.flags d
  table : h'.fds.datas ≡ h.fds.datas

set_fl_at-SetAt :
    (o : Option ℕ) (kernel : Kernel) (fd arg : ℕ) (h h' : Hooks)
    → Obeys kernel
    → set_fl_at o kernel fd arg h ≡ (true, h')
    → SetAt o fd arg h h'
unfolding set_fl_at get_fl_at
set_fl_at-SetAt none kernel fd arg h h' k e =
    let t = put_flags-Told fd arg (kernel (h.flags fd) arg) h h' e (k.told (h.flags fd) arg) in
    record {
      seen = t.flag;
      kept = t.flag;
      others = t.rest;
      table = ap (λ (m : FdManager). m.datas) t.table;
    }
set_fl_at-SetAt (some a) kernel fd arg h h' k e =
    let c = h.fds.heap a in
    elim (Bool-cases (is_kept c)) [
      | inl keeps ↦
          let c' : FdCtx = record c { user_nonblock = is_nonblock arg } in
          let arg' = choose_nonblock c.sys_nonblock arg in
          let path : sys_set_fl kernel fd arg' (set_ctx a c' h) ≡ (true, h') =
            sym (set_fl_at-kept a kernel fd arg h ∙ rw keeps refl) ∙ e in
          let t =
            put_flags-Told fd arg' (kernel (h.flags fd) arg') (set_ctx a c' h) h' path
              (k.told (h.flags fd) arg') in
          let ctx : h'.fds.heap a ≡ c' =
            ap (λ (m : FdManager). m.heap a) t.table ∙ written h.fds.heap a c' in
          record {
            seen =
                ap is_nonblock (get_fl_at-ctx a fd h' c' ctx ∙ rw keeps refl)
                ∙ is_nonblock-choose (is_nonblock arg) (h'.flags fd);
            kept = t.flag ∙ is_nonblock-choose c.sys_nonblock arg ∙ sym (rw keeps refl);
            others = t.rest;
            table = ap (λ (m : FdManager). m.datas) t.table;
          }
      | inr loose ↦
          let path : sys_set_fl kernel fd arg h ≡ (true, h') =
            sym (set_fl_at-kept a kernel fd arg h ∙ rw loose refl) ∙ e in
          let t =
            put_flags-Told fd arg (kernel (h.flags fd) arg) h h' path (k.told (h.flags fd) arg) in
          let ctx : h'.fds.heap a ≡ c = ap (λ (m : FdManager). m.heap a) t.table in
          record {
            seen = ap is_nonblock (get_fl_at-ctx a fd h' c ctx ∙ rw loose refl) ∙ t.flag;
            kept = t.flag ∙ sym (rw loose refl);
            others = t.rest;
            table = ap (λ (m : FdManager). m.datas) t.table;
          }
    ]

pub find_ctx-datas :
    (fd : ℕ) (h h' : Hooks) → h'.fds.datas ≡ h.fds.datas → find_ctx fd h' ≡ find_ctx fd h
find_ctx-datas fd h h' e =
    find_ctx-lookup fd h'
    ∙ ap (λ (xs : List (Option ℕ)). held (get_elem? xs fd)) e
    ∙ sym (find_ctx-lookup fd h)

-- With a kernel that sets O_NONBLOCK as it is told, after an `fcntl` with F_SETFL that succeeds,
-- F_GETFL tells O_NONBLOCK as it was set; the kernel's own flag is then the context's
-- sys_nonblock for an open socket with a context, and as it was set for any other descriptor; the
-- flags of the other descriptors are as they were.
pub set_fl-FlagsSet :
    (kernel : Kernel) (fd arg : ℕ) (h h' : Hooks)
    → Obeys kernel
    → set_fl kernel fd arg h ≡ (true, h')
    → FlagsSet fd arg h h'
unfolding set_fl get_fl
set_fl-FlagsSet kernel fd arg h h' k e =
    let s = set_fl_at-SetAt (find_ctx fd h) kernel fd arg h h' k e in
    record {
      seen =
          ap (λ (o : Option ℕ). is_nonblock (get_fl_at o fd h')) (find_ctx-datas fd h h' s.table)
          ∙ s.seen;
      kept = s.kept;
      others = s.others;
    }
