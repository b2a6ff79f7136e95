-- ===== src/Examples/Handlers.antt =====
-- The theorems on handler tables at concrete inputs.
use network_application.Base.{ℕ, ◌≡◌, none, ◌+◌}
use network_application.Base.Outcome.{returns}
use network_application.Base.Table.{nat_eq, lookup}
use network_application.HandlerInvoker.{
  invoke_default, HandlerInvoker, takes_arguments, takes_nothing, empty_invoker, register_handler,
  register_default_handler, assign_from, invoke_handler, invoke_found, invoke_handler_impl,
}
use network_application.HandlerInvoker.Laws.{invoke_handler-updates}

-- Key 1 adds one.
abbrev one_handler : HandlerInvoker ℕ ℕ ℕ
one_handler = register_handler empty_invoker 1 (takes_arguments (λ n. n + 1))

-- A default handler that answers 7.
abbrev with_default : HandlerInvoker ℕ ℕ ℕ
with_default = register_default_handler empty_invoker (takes_nothing 7)

invoke_handler-updates_example :
    (invoke_handler (register_handler with_default 2 (takes_arguments (λ n. n + 5))) none 2 41
      ≡ returns 46)
    × (invoke_handler (assign_from with_default one_handler) none 2 41 ≡ returns 7)
unfolding register_default_handler register_handler lookup empty_invoker invoke_handler_impl
    invoke_default invoke_found
invoke_handler-updates_example =
    invoke_handler-updates with_default one_handler none 2 2 (takes_arguments (λ n. n + 5)) 41
