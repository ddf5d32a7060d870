-- ===== src/Invoker.antt =====
-- internal/invoker/registry.go and sdk.go: the dispatch of a call to the invoker of its binding.
pub mod Retry
pub mod Http
mod Tests
pub mod Request
use thesa.Prelude.{Option, none, some, List, [], ◌∷◌, ◌++◌, is_some, if◌then◌else◌}
use thesa.Prelude.Text.{Text, codes, text_eq}
use thesa.Prelude.Sort.{sort_texts}
use thesa.Prelude.Maps.{Map, lookup, insert}
use thesa.Errors.{err, plain}
use thesa.Definition.{OperationBinding}
use thesa.Context.{Go, RequestContext, InvocationInput, InvocationResult, OperationInvoker, Exec}

-- SDKHandler.Invoke
abbrev pub Handler : Type 0 → Type 0
Handler W = RequestContext → InvocationInput → Exec W InvocationResult

module _ {W : Type 0} where
  abbrev pub register : List (OperationInvoker W) → OperationInvoker W → List (OperationInvoker W)
  register invokers invoker = invokers ++ invoker ∷ []

  module _ (go : Go) where
    -- The first invoker that supports the binding.
    unfoldable pub invoke :
        List (OperationInvoker W)
        → RequestContext
        → OperationBinding
        → InvocationInput
        → Exec W InvocationResult
    invoke [] rctx binding input w = (
      err (plain (codes "invoker: no invoker supports binding type " ++ go.quote binding.type)),
      w,
    )
    invoke (inv ∷ invokers) rctx binding input w =
        let rest = invoke invokers rctx binding input w in
        if inv.supports binding then inv.invoke rctx binding input w else rest

  -- A name that is taken is a panic, `none`.
  unfoldable pub register_handler : Map (Handler W) → Text → Handler W → Option (Map (Handler W))
  register_handler handlers name handler =
      if is_some (lookup name handlers) then none else some (insert name handler handlers)

  abbrev pub handler_names : Map (Handler W) → List Text
  handler_names [] = []
  handler_names ((name, h) ∷ m) = name ∷ handler_names m

  unfoldable pub names : Map (Handler W) → List Text
  names handlers = sort_texts (handler_names handlers)

  abbrev call_handler :
      Go
      → OperationBinding
      → Option (Handler W)
      → RequestContext
      → InvocationInput
      → Exec W InvocationResult
  call_handler go binding none rctx input w = (
    err (plain (codes "invoker: SDK handler " ++ (go.quote binding.handler ++ codes " not found"))),
    w,
  )
  call_handler go binding (some handler) rctx input w = handler rctx input w

  unfoldable pub sdk_invoker : Go → Map (Handler W) → OperationInvoker W
  sdk_invoker go handlers = record {
    supports = λ binding. text_eq binding.type (codes "sdk");
    invoke =
        λ rctx binding input. call_handler go binding (lookup binding.handler handlers) rctx input;
  }
