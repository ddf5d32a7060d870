-- ===== src/Command/Expression/Laws.antt =====
-- Literals, sources, and what an expression can never read.
use mathlib.Core.List.{reverse, reverse-append}
use thesa.Prelude.{
  ℕ, suc, ◌-◌, true, false, some, [], ◌∷◌, ◌++◌, ◌≡◌, ◌≢◌, inl, inr, refl, ap, arith, leb, length,
  length-append, take, Option-cases,
}
use thesa.Prelude.Text.{Text, codes, text_eq}
use thesa.Prelude.Strings.{cut_byte}
use thesa.Prelude.Trim.{trim_space, trim_space-quoted}
use thesa.Errors.{Result, ok}
use thesa.Value.{Value, str}
use thesa.Context.{Go, RequestContext}
use thesa.Command.Number.{is_numeric_literal}
use thesa.Command.Expression.{
  ExpressionResolver, is_quoted, unquoted, resolve_input, resolve_route, resolve_context,
  resolve_workflow, resolve_source, resolve_trimmed, resolve,
}

take_all : (s t : Text) → take (length s) (s ++ t) ≡ s
take_all [] t = refl
take_all (c ∷ s) t = ap (λ (u : Text). c ∷ u) (take_all s t)

unquoted-quoted : (s : Text) → unquoted (b'\'' ∷ (s ++ b'\'' ∷ [])) ≡ s
unquoted-quoted s =
    let n : suc (length (s ++ b'\'' ∷ [])) - 2 ≡ length s =
      omega (arith, length-append s (b'\'' ∷ [])) in
    rw n (take_all s (b'\'' ∷ []))

is_quoted-quoted : (s : Text) → is_quoted (b'\'' ∷ (s ++ b'\'' ∷ [])) ≡ true
is_quoted-quoted s =
    let turned : reverse (b'\'' ∷ (s ++ b'\'' ∷ [])) ≡ b'\'' ∷ reverse (b'\'' ∷ s) =
      reverse-append (b'\'' ∷ s) (b'\'' ∷ []) in
    let long : leb 2 (suc (length (s ++ b'\'' ∷ []))) ≡ true =
      ground (arith, length-append s (b'\'' ∷ [])) in
    rw (turned, long)

-- A quoted literal stands for the text between its quotes, whatever that holds: spaces at its ends
-- and quotes are kept.
pub resolve-quoted :
    (go : Go) (r : ExpressionResolver) (s : Text)
    → resolve go r (b'\'' ∷ (s ++ b'\'' ∷ [])) ≡ ok (str s)
unfolding resolve resolve_trimmed
resolve-quoted go r s = rw (trim_space-quoted s) (rw (is_quoted-quoted s, unquoted-quoted s))

-- The four sources, by the prefixes of their expressions.
pub data Source : Type 0 where
  input route context workflow : Source

abbrev pub prefix_of : Source → Text
prefix_of input = codes "input"
prefix_of route = codes "route"
prefix_of context = codes "context"
prefix_of workflow = codes "workflow"

abbrev pub read_source : Go → ExpressionResolver → Source → Text → Result Value
read_source go r input path = resolve_input go r path
read_source go r route path = resolve_route go r path
read_source go r context path = resolve_context go r path
read_source go r workflow path = resolve_workflow go r path

source_not_quoted :
    (s : Source) (path : Text) → is_quoted (prefix_of s ++ (codes "." ++ path)) ≡ false
source_not_quoted input path = ground arith
source_not_quoted route path = ground arith
source_not_quoted context path = ground arith
source_not_quoted workflow path = ground arith

resolve_trimmed-source :
    (go : Go) (r : ExpressionResolver) (s : Source) (c : ℕ) (path : Text)
    → resolve_trimmed go r (prefix_of s ++ (codes "." ++ c ∷ path)) ≡ read_source go r s (c ∷ path)
unfolding resolve_trimmed is_numeric_literal cut_byte resolve_source text_eq
resolve_trimmed-source go r input c path = rw (source_not_quoted input (c ∷ path))
resolve_trimmed-source go r route c path = rw (source_not_quoted route (c ∷ path))
resolve_trimmed-source go r context c path = rw (source_not_quoted context (c ∷ path))
resolve_trimmed-source go r workflow c path = rw (source_not_quoted workflow (c ∷ path))

-- An expression of a source's name, a dot and a path that is not empty reads the path from that
-- source, if it has no space at its ends.
pub resolve-source :
    (go : Go) (r : ExpressionResolver) (s : Source) (path : Text)
    → path ≢ []
    → trim_space (prefix_of s ++ (codes "." ++ path)) ≡ prefix_of s ++ (codes "." ++ path)
    → resolve go r (prefix_of s ++ (codes "." ++ path)) ≡ read_source go r s path
unfolding resolve
resolve-source go r s [] h t = absurd (h refl)
resolve-source go r s (c ∷ path) h t = rw t (resolve_trimmed-source go r s c path)

-- Two contexts of the same subject, tenant, partition and email.
pub record SameIdentity (c d : RequestContext) : Type 0 where
  pub subject : c.subject_id ≡ d.subject_id
  pub tenant : c.tenant_id ≡ d.tenant_id
  pub partition : c.partition_id ≡ d.partition_id
  pub email : c.email ≡ d.email

abbrev pub in_context : ExpressionResolver → RequestContext → ExpressionResolver
in_context r c = record r { context = some c }

resolve_context-same :
    (go : Go) (r : ExpressionResolver) (c d : RequestContext) (field : Text)
    → SameIdentity c d
    → resolve_context go (in_context r c) field ≡ resolve_context go (in_context r d) field
unfolding resolve_context
resolve_context-same go r c d field same =
    rw (same.subject, same.tenant, same.partition, same.email)

resolve_source-same :
    (go : Go) (r : ExpressionResolver) (c d : RequestContext) (expr prefix path : Text)
    → SameIdentity c d
    → resolve_source go (in_context r c) expr prefix path
      ≡ resolve_source go (in_context r d) expr prefix path
unfolding resolve_source resolve_input resolve_route resolve_workflow
resolve_source-same go r c d expr prefix path same = rw (resolve_context-same go r c d path same)

-- The value of an expression depends on nothing of the request's context but subject, tenant,
-- partition and email: not on the token, the roles, the claims or the session.
pub resolve-same :
    (go : Go) (r : ExpressionResolver) (c d : RequestContext) (expr : Text)
    → SameIdentity c d
    → resolve go (in_context r c) expr ≡ resolve go (in_context r d) expr
unfolding resolve resolve_trimmed
resolve-same go r c d expr same = elim (Option-cases (cut_byte b'.' (trim_space expr))) [
  | inl no_dot ↦ rw no_dot
  | inr ((prefix, path), e) ↦
      rw (e, resolve_source-same go r c d (trim_space expr) prefix path same)
]
