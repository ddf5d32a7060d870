-- ===== src/Command/Expression.antt =====
-- internal/command/expression.go: source expressions.
pub mod Laws
use mathlib.Core.List.{reverse}
use thesa.Prelude.{
  ℕ, ◌-◌, Bool, false, ◌&&◌, Option, none, some, [], ◌∷◌, ◌++◌, leb, ◌==◌, length, take, drop,
  is_empty, if◌then◌else◌,
}
use thesa.Prelude.Text.{Text, codes, text_eq}
use thesa.Prelude.Strings.{cut_byte}
use thesa.Prelude.Trim.{trim_space}
use thesa.Prelude.Maps.{Map, lookup}
use thesa.Errors.{Result, ok, err, plain}
use thesa.Value.{Value, str, is_nil}
use thesa.Context.{Go, RequestContext}
use thesa.Command.Path.{navigate_path}
use thesa.Command.Number.{is_numeric_literal, parse_numeric}

-- `none` is a nil map or pointer.
pub record ExpressionResolver : Type 0 where
  pub input : Option (Map Value)
  pub route_params : Option (Map Text)
  pub context : Option RequestContext
  pub workflow_state : Option (Map Value)

abbrev first_is : ℕ → Text → Bool
first_is b [] = false
first_is b (c ∷ s) = c == b

abbrev pub is_quoted : Text → Bool
is_quoted s = leb 2 (length s) && (first_is b'\'' s && first_is b'\'' (reverse s))

-- expr[1 : len(expr)-1]
abbrev pub unquoted : Text → Text
unquoted s = take (length s - 2) (drop 1 s)

module _ (go : Go) where
  abbrev found_or : Text → Text → Value → Result Value
  found_or before path v =
      if is_nil v then err (plain (before ++ (go.quote path ++ codes " not found"))) else ok v

  abbrev nil_source : Text → Text → Text → Result Value
  nil_source before source path =
      err (plain (before ++ (codes " is nil, cannot resolve " ++ go.quote (source ++ path))))

  unfoldable pub resolve_input : ExpressionResolver → Text → Result Value
  resolve_input r path = elim r.input [
    | none ↦ nil_source (codes "input source") (codes "input.") path
    | some m ↦ found_or (codes "input field ") path (navigate_path m path)
  ]

  unfoldable pub resolve_route : ExpressionResolver → Text → Result Value
  resolve_route r param = elim r.route_params [
    | none ↦ nil_source (codes "route params") (codes "route.") param
    | some m ↦ elim (lookup param m) [
      | none ↦ err (plain (codes "route param " ++ (go.quote param ++ codes " not found")))
      | some v ↦ ok (str v)
    ]
  ]

  abbrev context_field : RequestContext → Text → Result Value
  context_field c field =
      if text_eq field (codes "subject_id")
      then ok (str c.subject_id)
      else if text_eq field (codes "tenant_id")
      then ok (str c.tenant_id)
      else if text_eq field (codes "partition_id")
      then ok (str c.partition_id)
      else if text_eq field (codes "email")
      then ok (str c.email)
      else err (plain (codes "unknown context field " ++ go.quote field))

  unfoldable pub resolve_context : ExpressionResolver → Text → Result Value
  resolve_context r field = elim r.context [
    | none ↦ nil_source (codes "request context") (codes "context.") field
    | some c ↦ context_field c field
  ]

  unfoldable pub resolve_workflow : ExpressionResolver → Text → Result Value
  resolve_workflow r path = elim r.workflow_state [
    | none ↦ nil_source (codes "workflow state") (codes "workflow.") path
    | some m ↦ found_or (codes "workflow field ") path (navigate_path m path)
  ]

  -- The switch on the prefix; `expr` is the whole expression, for the messages.
  unfoldable pub resolve_source : ExpressionResolver → Text → Text → Text → Result Value
  resolve_source r expr prefix path =
      if is_empty path
      then err (
          plain
            (codes "invalid expression " ++ (go.quote expr ++ codes ": empty path after prefix")))
      else if text_eq prefix (codes "input")
      then resolve_input r path
      else if text_eq prefix (codes "route")
      then resolve_route r path
      else if text_eq prefix (codes "context")
      then resolve_context r path
      else if text_eq prefix (codes "workflow")
      then resolve_workflow r path
      else err (
          plain (
            codes "unknown expression prefix "
            ++ (go.quote prefix ++ (codes " in " ++ go.quote expr))))

  -- What follows the trimming.
  unfoldable pub resolve_trimmed : ExpressionResolver → Text → Result Value
  resolve_trimmed r expr =
      if is_empty expr
      then err (plain (codes "empty expression"))
      else if is_quoted expr
      then ok (str (unquoted expr))
      else if is_numeric_literal expr
      then parse_numeric go expr
      else elim (cut_byte b'.' expr) [
        | none ↦ err (
            plain
              (codes "invalid expression " ++ (go.quote expr ++ codes ": missing source prefix")))
        | some (prefix, path) ↦ resolve_source r expr prefix path
      ]

  unfoldable pub resolve : ExpressionResolver → Text → Result Value
  resolve r expr = resolve_trimmed r (trim_space expr)
