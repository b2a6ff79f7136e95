-- ===== src/HandlerInvoker.antt =====
-- core/handler_invoker: a table of handlers by key with an optional default handler
-- (handler_invoker.h). `A` is the tuple of the further arguments of a call.
pub mod Laws
use network_application.Base.{List, [], ◌∷◌, Option, none, some}
use network_application.Base.Outcome.{Outcome, returns, throws, runtime_error}
use network_application.Base.Table.{Eq, lookup, insert_new, keys}

-- A callable, by the arguments that it can be invoked with; the dispatch is made when the template is
-- instantiated.
pub data Handler (K A R : Type 0) : Type 0 where
  takes_all : (K → A → R) → Handler K A R
  takes_key : (K → R) → Handler K A R
  takes_nothing : R → Handler K A R
  takes_arguments : (A → R) → Handler K A R

-- HandlerInvokerCommon with the members handlerTable and defaultHandler.
pub record HandlerInvoker (K A R : Type 0) : Type 0 where
  pub table : List (K × Handler K A R)
  pub default_handler : Option (Handler K A R)

-- createRet: a result type that is not default constructible throws.
unfoldable pub create_ret : {R : Type 0} → Option R → Outcome R
create_ret none = throws runtime_error
create_ret (some r) = returns r

module _ {K A R : Type 0} where
  -- invokeHandlerImpl
  unfoldable pub invoke_handler_impl : Handler K A R → K → A → R
  invoke_handler_impl (takes_all f) k a = f k a
  invoke_handler_impl (takes_key f) k a = f k
  invoke_handler_impl (takes_nothing r) k a = r
  invoke_handler_impl (takes_arguments f) k a = f a

  unfoldable pub empty_invoker : HandlerInvoker K A R
  empty_invoker = record { table = []; default_handler = none }

  -- registerDefaultHandler
  unfoldable pub register_default_handler :
      HandlerInvoker K A R → Handler K A R → HandlerInvoker K A R
  register_default_handler i h = record i { default_handler = some h }

  -- The copy constructor.
  unfoldable pub copy : HandlerInvoker K A R → HandlerInvoker K A R
  copy other = record { table = other.table; default_handler = other.default_handler }

  -- operator= of two different objects: a default handler of the target stays if the source has none.
  unfoldable pub assign_from : HandlerInvoker K A R → HandlerInvoker K A R → HandlerInvoker K A R
  assign_from i other = record {
    table = other.table;
    default_handler = elim other.default_handler [ none ↦ i.default_handler | some h ↦ some h ];
  }

  -- What is called where the table has no handler.
  unfoldable pub invoke_default : Option (Handler K A R) → Option R → K → A → Outcome R
  unfolding invoke_handler_impl create_ret
  invoke_default none ret k a = create_ret ret
  invoke_default (some h) ret k a = returns (invoke_handler_impl h k a)

  unfoldable pub invoke_found :
      Option (Handler K A R) → Option (Handler K A R) → Option R → K → A → Outcome R
  unfolding invoke_handler_impl invoke_default
  invoke_found none d ret k a = invoke_default d ret k a
  invoke_found (some h) d ret k a = returns (invoke_handler_impl h k a)

module _ {K A R : Type 0} ⦃e : Eq K⦄ where
  -- registerHandler: a key that has a handler keeps it.
  unfoldable pub register_handler : HandlerInvoker K A R → K → Handler K A R → HandlerInvoker K A R
  unfolding insert_new
  register_handler i k h = record i { table = insert_new k h i.table }

  -- invokeHandler; `ret` is Ret_T() where the result type has a default.
  unfoldable pub invoke_handler : HandlerInvoker K A R → Option R → K → A → Outcome R
  unfolding lookup invoke_found
  invoke_handler i ret k a = invoke_found (lookup k i.table) i.default_handler ret k a

  -- getRegisteredKeys
  unfoldable pub get_registered_keys : HandlerInvoker K A R → List K
  unfolding keys
  get_registered_keys i = keys i.table
