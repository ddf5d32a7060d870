-- ===== src/Invoker/Request/Laws.antt =====
-- No header can be smuggled in through a value.
use thesa.Prelude.{
  ℕ, ◌≡◌, ◌≢◌, inl, inr, refl, arith, Bool, true, false, Option, none, some, [], ◌∷◌, ◌++◌, ◌==◌,
  ==_iff, All, All-append, is_empty, Bool-cases, if◌then◌else◌,
}
use thesa.Prelude.Text.{Text, codes, text_eq, has_prefix, Lacks}
use thesa.Prelude.Strings.{replace_all}
use thesa.Prelude.Maps.{Map, insert}
use thesa.Context.{RequestContext, InvocationInput}
use thesa.Invoker.Request.{
  sanitize_header, set_header, with_body, identity_headers, standard_headers, custom_headers,
  build_request_headers,
}

drop_byte :
    (b c : ℕ) (s : Text)
    → replace_all (c ∷ s) (b ∷ []) []
      ≡ (if c == b then replace_all s (b ∷ []) [] else c ∷ replace_all s (b ∷ []) [])
unfolding replace_all has_prefix
drop_byte b c s = ground (arith, ==_iff c b)

drop_byte_nil : (b : ℕ) → replace_all [] (b ∷ []) [] ≡ []
unfolding replace_all
drop_byte_nil b = refl

dropped-Lacks : (b : ℕ) (s : Text) → Lacks b (replace_all s (b ∷ []) [])
dropped-Lacks b [] = rw (drop_byte_nil b) tt
dropped-Lacks b (c ∷ s) = elim (Bool-cases (c == b)) [
  | inl same ↦ rw (drop_byte b c s, same) (dropped-Lacks b s)
  | inr other ↦ rw (drop_byte b c s, other) (ground (arith, ==_iff c b), dropped-Lacks b s)
]

still-Lacks : (a b : ℕ) (s : Text) → Lacks a s → Lacks a (replace_all s (b ∷ []) [])
still-Lacks a b [] h = rw (drop_byte_nil b) tt
still-Lacks a b (c ∷ s) h = elim (Bool-cases (c == b)) [
  | inl same ↦ rw (drop_byte b c s, same) (still-Lacks a b s h.1)
  | inr other ↦ rw (drop_byte b c s, other) (h.0, still-Lacks a b s h.1)
]

-- Neither a carriage return nor a newline.
abbrev pub IsOneLine : Text → Type 0
IsOneLine s = Lacks b'\r' s × Lacks b'\n' s

sanitize_header-IsOneLine : (s : Text) → IsOneLine (sanitize_header s)
unfolding sanitize_header
sanitize_header-IsOneLine s = (
  still-Lacks b'\r' b'\n' (replace_all s (b'\r' ∷ []) []) (dropped-Lacks b'\r' s),
  dropped-Lacks b'\n' (replace_all s (b'\r' ∷ []) []),
)

-- Neither in a name nor in a value.
abbrev pub AreOneLine : Text × Text → Type 0
AreOneLine e = IsOneLine e.0 × IsOneLine e.1

abbrev pub Lines : Map Text → Type 0
Lines h = All AreOneLine h

insert-Lines :
    (k v : Text) (h : Map Text) → IsOneLine k → IsOneLine v → Lines h → Lines (insert k v h)
unfolding insert
insert-Lines k v [] name one all = ((name, one), tt)
insert-Lines k v ((j, w) ∷ h) name one all = elim (Bool-cases (text_eq j k)) [
  | inl same ↦ rw same ((name, one), all.1)
  | inr other ↦ rw other (all.0, insert-Lines k v h name one all.1)
]

-- A text without line breaks keeps that behind another.
IsOneLine-append : (s t : Text) → IsOneLine s → IsOneLine t → IsOneLine (s ++ t)
IsOneLine-append s t (a, b) (c, d) =
    (All-append (λ x. x ≢ b'\r') s t a c, All-append (λ x. x ≢ b'\n') s t b d)

json-IsOneLine : IsOneLine (codes "application/json")
json-IsOneLine = (ground arith, ground arith)

bearer-IsOneLine : IsOneLine (codes "Bearer ")
bearer-IsOneLine = (ground arith, ground arith)

-- `canonical` changes letters only: it brings no line break into a name.
module _ (canonical : Text → Text)
    (keeps : (k : Text) → IsOneLine k → IsOneLine (canonical k)) where
  set_header-Lines :
      (k v : Text) (h : Map Text)
      → IsOneLine k
      → IsOneLine v
      → Lines h
      → Lines (set_header canonical k v h)
  set_header-Lines k v h name one all = insert-Lines (canonical k) v h (keeps k name) one all

  optional-Lines : (b : Bool) (h h' : Map Text) → Lines h → Lines h' → Lines (if b then h else h')
  optional-Lines true h h' all all' = all
  optional-Lines false h h' all all' = all'

  identity_headers-Lines :
      (c : RequestContext) (h : Map Text) → Lines h → Lines (identity_headers canonical c h)
  identity_headers-Lines c h all =
      set_header-Lines (codes "X-Request-Subject") (sanitize_header c.subject_id) _
        (ground arith, ground arith) (sanitize_header-IsOneLine c.subject_id)
        (set_header-Lines (codes "X-Correlation-Id") (sanitize_header c.correlation_id) _
          (ground arith, ground arith) (sanitize_header-IsOneLine c.correlation_id)
          (set_header-Lines (codes "X-Partition-Id") (sanitize_header c.partition_id) _
            (ground arith, ground arith) (sanitize_header-IsOneLine c.partition_id)
            (set_header-Lines (codes "X-Tenant-Id") (sanitize_header c.tenant_id) _
              (ground arith, ground arith) (sanitize_header-IsOneLine c.tenant_id)
              (optional-Lines (is_empty c.token) h _ all (
                set_header-Lines (codes "Authorization")
                  (codes "Bearer " ++ sanitize_header c.token) h (ground arith, ground arith)
                  (IsOneLine-append (codes "Bearer ") (sanitize_header c.token) bearer-IsOneLine
                    (sanitize_header-IsOneLine c.token))
                  all)))))

  standard_headers-Lines :
      (rctx : Option RequestContext) (method : Text)
      → Lines (standard_headers canonical rctx method)
  standard_headers-Lines rctx method =
      let accept : Map Text = set_header canonical (codes "Accept") (codes "application/json") [] in
      let accept-Lines : Lines accept =
        set_header-Lines (codes "Accept") (codes "application/json") [] (ground arith, ground arith)
          json-IsOneLine tt in
      let plain-Lines =
        optional-Lines (with_body canonical method)
          (set_header canonical (codes "Content-Type") (codes "application/json") accept) accept
          (set_header-Lines (codes "Content-Type") (codes "application/json") accept
            (ground arith, ground arith) json-IsOneLine accept-Lines)
          accept-Lines in
      with_context _ rctx plain-Lines
    where
      with_context :
          (h : Map Text) (r : Option RequestContext)
          → Lines h
          → Lines (elim r [ none ↦ h | some c ↦ identity_headers canonical c h ])
      with_context h none all = all
      with_context h (some c) all = identity_headers-Lines c _ all

  custom_headers-Lines : (m h : Map Text) → Lines h → Lines (custom_headers canonical m h)
  unfolding custom_headers
  custom_headers-Lines [] h all = all
  custom_headers-Lines ((k, v) ∷ m) h all =
      custom_headers-Lines m (set_header canonical (sanitize_header k) (sanitize_header v) h) (
        set_header-Lines (sanitize_header k) (sanitize_header v) h (sanitize_header-IsOneLine k)
          (sanitize_header-IsOneLine v) all)

  -- If the canonical form of a name without line breaks has none, then no header of a request holds
  -- a carriage return or a newline, neither in its name nor in its value, whatever the token, the
  -- context's fields and the headers of the input hold.
  pub build_request_headers-Lines :
      (rctx : Option RequestContext) (input : InvocationInput) (method : Text)
      → Lines (build_request_headers canonical rctx input method)
  unfolding build_request_headers
  build_request_headers-Lines rctx input method =
      custom_headers-Lines input.headers (standard_headers canonical rctx method)
        (standard_headers-Lines rctx method)
