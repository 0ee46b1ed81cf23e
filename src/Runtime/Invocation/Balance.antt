-- ===== src/Runtime/Invocation/Balance.antt =====
-- The machine of src/utils/TinyCoroutine/Invocation.cpp against plain calls: a host call leaves the
-- stack of invocations as it was and has its effects in the order of the calls.
use lorelei.Base.{
  ℕ, zero, suc, ◌+◌, ◌≤◌, ◌<◌, max, length, ltb, lt→ltb, true, false, ◌≡◌, refl, ap, sym, ◌∙◌, List,
  [], ◌∷◌, ◌++◌, append_assoc, append-nil, Run, ok, undefined, starved, ◌>>=◌, arith,
}
use lorelei.Runtime.Invocation.{
  ReentryConvention, standard, standard_callback, format, unknown, HostTask, host_return,
  host_effect, reenter, GuestTask, guest_return, guest_effect, invoke_host, HostExecContext,
  run_task, invoke, invoke_loop, run_guest, invoke_function, service, emit, resume, suspend,
  pop_invocation, push_invocation,
}

abbrev pub serviced : ReentryConvention → List ℕ → List ℕ
serviced unknown es = []
serviced _ es = es

-- The effects of plain calls, and a bound on the rounds they take.
unfoldable mutual
  pub host_effects : HostTask → List ℕ
  host_effects host_return = []
  host_effects (host_effect e t) = e ∷ host_effects t
  host_effects (reenter conv g t) = serviced conv (guest_effects g) ++ host_effects t

  pub guest_effects : GuestTask → List ℕ
  guest_effects guest_return = []
  guest_effects (guest_effect e g) = e ∷ guest_effects g
  guest_effects (invoke_host t g) = host_effects t ++ guest_effects g

unfoldable mutual
  pub host_cost : HostTask → ℕ
  host_cost host_return = 1
  host_cost (host_effect e t) = host_cost t
  host_cost (reenter conv g t) = suc (guest_cost g + host_cost t)

  pub guest_cost : GuestTask → ℕ
  guest_cost guest_return = 1
  guest_cost (guest_effect e g) = suc (guest_cost g)
  guest_cost (invoke_host t g) = suc (host_cost t + guest_cost g)

-- How many invocations are on the stack at once, on top of those that are there: by a guest
-- function, and by a host function that has been pushed.
abbrev pub reentry_depth : ReentryConvention → ℕ → ℕ
reentry_depth unknown n = 0
reentry_depth _ n = n

unfoldable mutual
  pub host_depth : HostTask → ℕ
  host_depth host_return = 0
  host_depth (host_effect e t) = host_depth t
  host_depth (reenter conv g t) = max (reentry_depth conv (guest_depth g)) (host_depth t)

  pub guest_depth : GuestTask → ℕ
  guest_depth guest_return = 0
  guest_depth (guest_effect e g) = guest_depth g
  guest_depth (invoke_host t g) = max (suc (host_depth t)) (guest_depth g)

abbrev after : HostExecContext → List HostTask → List ℕ → HostExecContext
after ctx ts es = record ctx { invocations = ts; effects = ctx.effects ++ es }

push_invocation-ok :
    (t : HostTask) (ctx : HostExecContext)
    → length ctx.invocations < ctx.max_invocations
    → push_invocation t ctx ≡ ok (record ctx { invocations = t ∷ ctx.invocations })
unfolding push_invocation
push_invocation-ok t ctx h =
    let room : ltb (length ctx.invocations) ctx.max_invocations ≡ true = lt→ltb _ _ h in
    rw (push_invocation, room) refl

service-after :
    (run : GuestTask → HostExecContext → Run HostExecContext) (conv : ReentryConvention)
    (g : GuestTask) (ctx : HostExecContext) (es : List ℕ) (n : ℕ)
    → (length ctx.invocations + n ≤ ctx.max_invocations
        → run g ctx ≡ ok (after ctx ctx.invocations es))
    → length ctx.invocations + reentry_depth conv n ≤ ctx.max_invocations
    → service run conv g ctx ≡ ok (after ctx ctx.invocations (serviced conv es))
unfolding service
service-after run standard g ctx es n h k = h k
service-after run standard_callback g ctx es n h k = h k
service-after run format g ctx es n h k = h k
service-after run unknown g ctx es n h k =
    ap (λ l. ok (record ctx { effects = l })) (sym (append-nil ctx.effects))

-- Fuel that is enough for something is not zero.
positive : (fuel n : ℕ) → suc n ≤ fuel → (f : ℕ) × (fuel ≡ suc f) × (n ≤ f)
positive zero n h = absurd (omega arith)
positive (suc f) n h = (f, refl, omega arith)

-- What a reentry does, when its guest function and the rest of the host function are known.
reenter-after :
    (f : ℕ) (conv : ReentryConvention) (g : GuestTask) (t s : HostTask) (ts : List HostTask)
    (ctx : HostExecContext) (es hs : List ℕ)
    → ctx.invocations ≡ s ∷ ts
    → service (run_guest f) conv g (record ctx { invocations = t ∷ ts })
      ≡ ok (after ctx (t ∷ ts) es)
    → (run_task t (after ctx (t ∷ ts) es) >>= λ y. invoke_loop f y)
      ≡ ok (after (after ctx (t ∷ ts) es) ts hs)
    → (run_task (reenter conv g t) ctx >>= λ y. invoke_loop (suc f) y)
      ≡ ok (after ctx ts (es ++ hs))
unfolding run_task suspend invoke_loop resume
reenter-after f conv g t s ts ctx es hs e guest host =
    rw (e, run_task, suspend, guest)
      (host
        ∙ ap (λ l. ok (record ctx { invocations = ts; effects = l }))
            (append_assoc ctx.effects es hs))

>>=-after {ℓ κ μ} :
    {A : Type ℓ} {B : Type κ} {C : Type μ} (m : Run A) (a : A → Run B) (b : B → Run C) {c : B}
    → (m >>= a) ≡ ok c
    → (m >>= λ y. a y >>= b) ≡ b c
>>=-after (ok x) a b h = rw h refl
>>=-after undefined a b h = cc
>>=-after starved a b h = cc

invoke_host-after :
    (f : ℕ) (t : HostTask) (g : GuestTask) (ctx : HostExecContext) (hs es : List ℕ)
    → length ctx.invocations < ctx.max_invocations
    → (run_task t (record ctx { invocations = t ∷ ctx.invocations }) >>= λ y. invoke_loop f y)
      ≡ ok (after ctx ctx.invocations hs)
    → run_guest f g (after ctx ctx.invocations hs)
      ≡ ok (after (after ctx ctx.invocations hs) ctx.invocations es)
    → run_guest (suc f) (invoke_host t g) ctx ≡ ok (after ctx ctx.invocations (hs ++ es))
unfolding run_guest invoke
invoke_host-after f t g ctx hs es room host guest =
    let called : (invoke t ctx >>= λ y. invoke_loop f y) ≡ ok (after ctx ctx.invocations hs) =
      rw (invoke, push_invocation-ok t ctx room) host in
    >>=-after (invoke t ctx) (invoke_loop f) (run_guest f g) called
    ∙ guest
    ∙ ap (λ l. ok (record ctx { effects = l })) (append_assoc ctx.effects hs es)

mutual
  unfolding run_task pop_invocation invoke_loop run_guest invoke host_effects guest_effects
      host_cost guest_cost host_depth guest_depth

  task-after :
      (t s : HostTask) (ts : List HostTask) (fuel : ℕ) (ctx : HostExecContext)
      → host_cost t ≤ fuel
      → suc (length ts) + host_depth t ≤ ctx.max_invocations
      → ctx.invocations ≡ s ∷ ts
      → (run_task t ctx >>= λ y. invoke_loop fuel y) ≡ ok (after ctx ts (host_effects t))
  task-after host_return s ts fuel ctx h room e =
      let (f, p, le) = positive fuel 0 h in
      rw (p, e, run_task, pop_invocation)
        (ap (λ l. ok (record ctx { invocations = ts; effects = l })) (sym (append-nil ctx.effects)))
  task-after (host_effect x t) s ts fuel ctx h room e =
      task-after t s ts fuel (emit x ctx) h room e
      ∙ ap (λ l. ok (record ctx { invocations = ts; effects = l }))
          (append_assoc ctx.effects (x ∷ []) (host_effects t))
  task-after (reenter conv g t) s ts fuel ctx h room e =
      let (f, p, le) = positive fuel (guest_cost g + host_cost t) h in
      let c = record ctx { invocations = t ∷ ts } in
      let d = after ctx (t ∷ ts) (serviced conv (guest_effects g)) in
      rw p (
        reenter-after f conv g t s ts ctx (serviced conv (guest_effects g)) (host_effects t) e
          (service-after (run_guest f) conv g c (guest_effects g) (guest_depth g)
            (λ fits. guest-after g f c (omega (arith, le)) fits) (omega (arith, room)))
          (task-after t t ts f d (omega (arith, le)) (omega (arith, room)) refl))

  guest-after :
      (g : GuestTask) (fuel : ℕ) (ctx : HostExecContext)
      → guest_cost g ≤ fuel
      → length ctx.invocations + guest_depth g ≤ ctx.max_invocations
      → run_guest fuel g ctx ≡ ok (after ctx ctx.invocations (guest_effects g))
  guest-after guest_return fuel ctx h room =
      let (f, p, le) = positive fuel 0 h in
      rw p (ap (λ l. ok (record ctx { effects = l })) (sym (append-nil ctx.effects)))
  guest-after (guest_effect x g) fuel ctx h room =
      let (f, p, le) = positive fuel (guest_cost g) h in
      rw p (
        guest-after g f (emit x ctx) le room
        ∙ ap (λ l. ok (record ctx { effects = l }))
            (append_assoc ctx.effects (x ∷ []) (guest_effects g)))
  guest-after (invoke_host t g) fuel ctx h room =
      let (f, p, le) = positive fuel (host_cost t + guest_cost g) h in
      let start = record ctx { invocations = t ∷ ctx.invocations } in
      let done = after ctx ctx.invocations (host_effects t) in
      rw p (
        invoke_host-after f t g ctx (host_effects t) (guest_effects g) (omega (arith, room))
          (task-after t t ctx.invocations f start (omega (arith, le)) (omega (arith, room)) refl)
          (guest-after g f done (omega (arith, le)) (omega (arith, room))))

-- Where all reentries ask for a function or are of an unknown convention, so that no thread is
-- created or ended, for fuel that bounds the calls and a stack of invocations that has room for
-- those that are suspended and those of the call, invokeFunction returns: the stack is as it
-- was, whatever was suspended on it, and the effects are those of plain nested calls, in their
-- order.
pub invoke_function-after :
    (t : HostTask) (ctx : HostExecContext) (fuel : ℕ)
    → host_cost t ≤ fuel
    → length ctx.invocations + suc (host_depth t) ≤ ctx.max_invocations
    → invoke_function fuel t ctx ≡ ok (record ctx { effects = ctx.effects ++ host_effects t })
unfolding invoke_function invoke
invoke_function-after t ctx fuel h room =
    rw (invoke_function, invoke, push_invocation-ok t ctx (omega (arith, room)))
      (task-after t t ctx.invocations fuel (record ctx { invocations = t ∷ ctx.invocations }) h
        (omega (arith, room)) refl)

-- A call for which the stack has no room fails the assertion of pushInvocation.
pub invoke_function-full :
    (t : HostTask) (ctx : HostExecContext) (fuel : ℕ)
    → ctx.max_invocations ≤ length ctx.invocations
    → invoke_function fuel t ctx ≡ undefined
unfolding invoke_function invoke push_invocation
invoke_function-full t ctx fuel h =
    let full : ltb (length ctx.invocations) ctx.max_invocations ≡ false = ground arith in
    rw (invoke_function, invoke, push_invocation, full) refl
