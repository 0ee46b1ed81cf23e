-- ===== src/Runtime/Invocation.antt =====
-- Host calls that call back: `HostExecContext` and `Invocation` of
-- src/utils/TinyCoroutine/Invocation.cpp, and the loop of `GuestClient::invokeFunction` in
-- src/modules/GuestRT/GuestClient.cpp. Host and guest functions are trees of what they do: an
-- effect, or a call to the other side. A suspended coroutine is what it has still to do; the
-- switch of stacks and registers is that it stops and goes on there. The conventions that call a
-- function are modelled, SC_ThreadCreate and SC_ThreadExit are not. A failed assertion is
-- `undefined`.
pub mod Balance
use lorelei.Base.{
  ℕ, zero, suc, ◌+◌, Bool, true, false, List, [], ◌∷◌, ◌++◌, Option, none, some, ◌==◌, ltb, length,
  if◌then◌else◌, Run, ok, undefined, starved, ◌>>=◌,
}

pub data ReentryConvention : Type 0 where
  standard standard_callback format unknown : ReentryConvention

mutual
  pub data HostTask : Type 0 where
    host_return : HostTask
    host_effect : ℕ → HostTask → HostTask
    reenter : ReentryConvention → GuestTask → HostTask → HostTask

  pub data GuestTask : Type 0 where
    guest_return : GuestTask
    guest_effect : ℕ → GuestTask → GuestTask
    invoke_host : HostTask → GuestTask → GuestTask

-- The stack of invocations, the last in front, how many it has room for, which is
-- `stackSize / sizeof(InvocationInfo)`, and the effects so far.
pub record HostExecContext : Type 0 where
  pub invocations : List HostTask
  pub max_invocations : ℕ
  pub effects : List ℕ

-- What a switch hands back: 1 and the reentry, or 0.
pub record Yield : Type 0 where
  pub ret : ℕ
  pub reentry : Option (ReentryConvention × GuestTask)
  pub context : HostExecContext

abbrev pub emit : ℕ → HostExecContext → HostExecContext
emit e ctx = record ctx { effects = ctx.effects ++ e ∷ [] }

-- `pushInvocation`
unfoldable pub push_invocation : HostTask → HostExecContext → Run HostExecContext
push_invocation t ctx =
    if ltb (length ctx.invocations) ctx.max_invocations
    then ok (record ctx { invocations = t ∷ ctx.invocations })
    else undefined

-- `popInvocation`
unfoldable pub pop_invocation : HostExecContext → Run HostExecContext
pop_invocation ctx = elim ctx.invocations [
  | [] ↦ undefined
  | t ∷ ts ↦ ok (record ctx { invocations = ts })
]

-- `reenter` saves the state of the last invocation and yields 1.
unfoldable pub suspend : ReentryConvention → GuestTask → HostTask → HostExecContext → Run Yield
suspend conv guest rest ctx = elim ctx.invocations [
  | [] ↦ undefined
  | t ∷ ts ↦ ok (record {
    ret = 1;
    reentry = some (conv, guest);
    context = record ctx { invocations = rest ∷ ts };
  })
]

-- The body of a coroutine, `invocationEntry` after the push, up to the next switch.
unfoldable pub run_task : HostTask → HostExecContext → Run Yield
unfolding pop_invocation suspend
run_task host_return ctx =
    pop_invocation ctx >>= λ c. ok (record { ret = 0; reentry = none; context = c })
run_task (host_effect e t) ctx = run_task t (emit e ctx)
run_task (reenter conv guest t) ctx = suspend conv guest t ctx

-- `Invocation::invoke` and `Invocation::resume`
unfoldable pub invoke : HostTask → HostExecContext → Run Yield
unfolding push_invocation run_task
invoke t ctx = push_invocation t ctx >>= λ c. run_task t c

unfoldable pub resume : HostExecContext → Run Yield
unfolding run_task
resume ctx = elim ctx.invocations [ [] ↦ undefined | t ∷ ts ↦ run_task t ctx ]

-- The `switch` over the convention; `run` runs a guest function. An unknown one is passed over.
unfoldable pub service :
    (GuestTask → HostExecContext → Run HostExecContext)
    → ReentryConvention
    → GuestTask
    → HostExecContext
    → Run HostExecContext
service run standard guest ctx = run guest ctx
service run standard_callback guest ctx = run guest ctx
service run format guest ctx = run guest ctx
service run unknown guest ctx = ok ctx

-- The fuel bounds the rounds of the loops and the steps of the guest functions in them.
unfoldable mutual
  unfolding service resume invoke

  -- The loop of `invokeFunction`.
  pub invoke_loop : ℕ → Yield → Run HostExecContext
  invoke_loop zero y = starved
  invoke_loop (suc fuel) y = if y.ret == 0 then ok y.context else elim y.reentry [
    | none ↦ undefined
    | some (conv, guest) ↦
        service (run_guest fuel) conv guest y.context >>= λ c. resume c >>= λ z. invoke_loop fuel z
  ]

  pub run_guest : ℕ → GuestTask → HostExecContext → Run HostExecContext
  run_guest zero g ctx = starved
  run_guest (suc fuel) guest_return ctx = ok ctx
  run_guest (suc fuel) (guest_effect e g) ctx = run_guest fuel g (emit e ctx)
  run_guest (suc fuel) (invoke_host t g) ctx =
      invoke t ctx >>= λ y. invoke_loop fuel y >>= λ c. run_guest fuel g c

-- `GuestClient::invokeFunction`
unfoldable pub invoke_function : ℕ → HostTask → HostExecContext → Run HostExecContext
unfolding invoke invoke_loop
invoke_function fuel t ctx = invoke t ctx >>= λ y. invoke_loop fuel y
