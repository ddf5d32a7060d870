-- ===== src/Transport/Pages.antt =====
-- A request for a page, from the claims of its caller to the descriptor in the response.
use mathlib.Core.Path.{subst}
use thesa.Prelude.{some, List, [], ◌∷◌, ◌++◌, ◌≡◌, refl, sym, ap, ◌∙◌, inl, inr, Bool-cases}
use thesa.Prelude.Int.{ℤ, pos, leb_ℤ}
use thesa.Prelude.Text.{codes}
use thesa.Errors.{Result, ok, err}
use thesa.Definition.{PageDefinition}
use thesa.Context.{Go, RequestContext, Exec}
use thesa.Capability.{CapabilitySet}
use thesa.Registry.{Snapshot, get_page}
use thesa.Metadata.Descriptor.{PageDescriptor}
use thesa.Metadata.Page.{get_page_descriptor}
use thesa.Metadata.Page.Laws.{Shown, get_page_descriptor-Shown}
use thesa.Transport.Http.{
  Request, Payload, page_payload, Layer, status_writer, Response, write_json, write_error_to,
  Served, HttpHandler,
}
use thesa.Transport.Middleware.{context_for}
use thesa.Transport.Interface.{Dependencies}
use thesa.Transport.Handlers.{handle_get_page, answer, path_value}
use thesa.Transport.Router.{auth_chain}
use thesa.Transport.Router.Laws.{after, timed, auth_chain-after}

-- A page descriptor is what was written.
abbrev pub Sends : {S : Type 0} → Served S → PageDescriptor → Type 0
Sends served desc = served.response.bodies ≡ page_payload desc ∷ []

only_body :
    (bodies : List Payload) (p q : Payload) → bodies ≡ [] → bodies ++ p ∷ [] ≡ q ∷ [] → p ≡ q
only_body bodies p q clean h =
    let alone : p ∷ [] ≡ q ∷ [] = sym (ap (λ (b : List Payload). b ++ p ∷ []) clean) ∙ h in cc

answer-ok :
    {S : Type 0} (layers : List Layer) (res : Response) (r : Result PageDescriptor) (s : S)
    (desc : PageDescriptor)
    → res.bodies ≡ []
    → Sends (answer page_payload layers res r s) desc
    → r ≡ ok desc
unfolding write_json write_error_to
answer-ok layers res (err e) s desc clean h =
    let same = only_body res.bodies _ (page_payload desc) clean h in absurd (cc)
answer-ok layers res (ok d) s desc clean h =
    let same = only_body res.bodies (page_payload d) (page_payload desc) clean h in
    let found : d ≡ desc = cc in ap (λ (x : PageDescriptor). ok x) found

module _ {S : Type 0} (deps : Dependencies S) (timeout : ℤ) (layers : List Layer) (req : Request)
    (res : Response) (desc : PageDescriptor) where
  page_after :
      (r : Result CapabilitySet × S)
      → res.bodies ≡ []
      → Sends (after timeout (handle_get_page deps) layers req res r) desc
      → (caps : CapabilitySet) × (r.0 ≡ ok caps)
        × (deps.get_page caps (path_value req (codes "pageId")) ≡ ok desc)
  unfolding write_json write_error_to
  page_after (err e, s) clean h =
      let same = only_body res.bodies _ (page_payload desc) clean h in absurd (cc)
  page_after (ok caps, s) clean h =
      let base : Request = record req {
        request_context = some (context_for req.auth_claims req);
        capabilities = caps;
      } in
      let shown : (r : Request)
          → timed timeout base ≡ r
          → Sends (handle_get_page deps (status_writer ∷ layers) r res s) desc =
        λ r e.
          subst
            (λ (x : Request). Sends (handle_get_page deps (status_writer ∷ layers) x res s) desc) e
            h in
      elim (Bool-cases (leb_ℤ timeout (pos 0))) [
        | inl unbounded ↦
            let page = shown base (rw unbounded refl) in
            (caps, refl, answer-ok (status_writer ∷ layers) res _ s desc clean page)
        | inr bounded ↦
            let page = shown (record base { timeout = some timeout }) (rw bounded refl) in
            (caps, refl, answer-ok (status_writer ∷ layers) res _ s desc clean page)
      ]

-- Where the authentication lets a request for a page through, the handler asks GetPage and nothing
-- was written before, a page descriptor in the response is one that the caller may have: the
-- resolver gave capabilities for the context built from the caller's claims, the page of that id is
-- in the registry, those capabilities hold all of the page's, and the descriptor has exactly the
-- sections, actions, row actions and bulk actions whose capabilities they hold. A section has every
-- field whose visibility is not `hidden`, and the table every column of the definition.
pub page_request-Shown :
    {S : Type 0} (go : Go) (registry : Snapshot) (deps : Dependencies S)
    (resolve : RequestContext → Exec S CapabilitySet) (timeout : ℤ) (layers : List Layer)
    (req : Request) (res : Response) (s : S) (desc : PageDescriptor)
    → deps.get_page ≡ get_page_descriptor go registry
    → res.bodies ≡ []
    → Sends
        (auth_chain (λ next. next) (some resolve) timeout (handle_get_page deps) layers req res s)
        desc
    → (caps : CapabilitySet) × ((resolve (context_for req.auth_claims req) s).0 ≡ ok caps)
      × ((def : PageDefinition) × (get_page registry (path_value req (codes "pageId")) ≡ some def)
          × Shown go caps def desc)
page_request-Shown go registry deps resolve timeout layers req res s desc wired clean h =
    let sent : Sends
        (after timeout (handle_get_page deps) layers req res
          (resolve (context_for req.auth_claims req) s))
        desc =
      subst (λ (handler : HttpHandler _). Sends (handler layers req res s) desc)
        (auth_chain-after (λ next. next) resolve timeout (handle_get_page deps)) h in
    let (caps, resolved, page) =
      page_after deps timeout layers req res desc (resolve (context_for req.auth_claims req) s)
        clean sent in
    (
      caps,
      resolved,
      get_page_descriptor-Shown go registry caps (path_value req (codes "pageId")) desc
          ((λ i. sym wired i caps (path_value req (codes "pageId"))) ∙ page),
    )
