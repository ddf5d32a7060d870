-- ===== src/Lib.antt =====
-- Thesa, a backend for user interfaces that are described by definitions.
--
-- A request comes with a context (subject, tenant, partition, roles). A policy evaluator resolves
-- the context to a capability set, behind a cache. The definitions of pages, forms, commands,
-- searches and lookups are loaded from files, validated and kept in a registry, from which the
-- metadata providers tell the user interface what its caller may see, with data from the backends.
-- A command maps the input of the user interface to a call, which the invoker registry dispatches
-- to a backend; a search asks all backends that the caller may use; a lookup gives the options of
-- a field from a cache or a backend.
--
-- The files, and the code that they model:
--   Prelude      lists, int as ℤ with its wrap-around, strings as lists of bytes, maps as
--                association lists in an order in which `range` may visit them
--   Value        a decoded JSON value (any)
--   Definition   model/definition.go
--   Errors       model/errors.go: an error is an *ErrorEnvelope or another error by its text
--   Context      model/context.go, model/invoker.go; the record Go stands for fmt, strings.ToLower
--                and strconv.ParseFloat, the record OperationInvoker for a backend
--   Capability   model/capability.go (CapabilitySet.Has, matchWildcard); Capability.Static,
--                Capability.Resolver and Capability.Keto: static_policy.go, resolver.go and
--                keto_policy.go of internal/capability, the collection of its checks in
--                Capability.Keto.Collect
--   Config       internal/config/config.go; Config.Load is Load with its defaults and overrides
--   Registry     internal/definition/registry.go: the snapshot behind the atomic pointer
--   OpenApi      internal/openapi/index.go
--   Invoker      internal/invoker/registry.go and sdk.go; Invoker.Retry, Invoker.Request and
--                Invoker.Http are openapi.go, with net/http as parameters
--   Command      internal/command: Command.Path, Command.Number and Command.Expression are
--                expression.go, Command.Mapper is mapper.go, Command.Response and Command.Executor
--                are executor.go
--   Search       internal/search: Search.Items, Search.Dedup, Search.Paging and Search.Provider
--                are provider.go, Search.Lookup is lookup.go
--   Sets         map[string]bool as a set of names
--   Loader       internal/definition/loader.go
--   Validator    internal/definition/validator.go; Validator.Spec says what a valid definition is,
--                and Validator.Loaded what a registry of valid definitions answers
--   Metadata     internal/metadata: Metadata.Action is action.go, Metadata.Form is form.go with the
--                sections in Metadata.Section, Metadata.Page is page.go, Metadata.Menu is menu.go,
--                Metadata.Resource is resource.go, Metadata.Schema is schema.go;
--                Metadata.Descriptor holds the records of model/descriptor.go
--   Transport    internal/transport: Transport itself and Transport.Http are response.go,
--                Transport.Middleware is middleware.go, Transport.Query, Transport.Actions and
--                Transport.Handlers are the files handler_*.go, over the interface
--                Transport.Interface; Transport.Router is router.go; Transport.Providers puts the
--                models of the providers behind the handlers, as cmd/bff/main.go does
--   Samples      small inputs; the modules named Tests apply the theorems to them
--
-- Effects are explicit: an operation takes the world (backends, clocks, contexts) and gives it
-- back, and a state such as a cache goes in and comes out. Locks and the atomic pointer make each
-- such operation one step. The goroutines of a search are the order in which their results arrive,
-- a parameter. All recursion is structural, on a list, a text or the attempts that remain, so there
-- is no fuel.
--
-- Parameters stand for code outside the repository: Go's library, the authorization service, the
-- parsers of YAML and OpenAPI documents, the file system, SHA-256, float64 arithmetic, sort.Slice
-- (for the menu an interface with the laws of its documentation), net/http and its mux, the
-- middleware that authenticates a request, and the clock.
--
-- Not modelled: what cmd/bff does to start the process, the streams of the file proxy
-- (handler_file.go), JSON and HTTP themselves, logs, the deadlines of contexts beyond the value that
-- is set, a panic inside a goroutine of a search (which ends the process), the test harness, and the
-- Dart packages under ui.
pub mod Prelude
pub mod Value
pub mod Errors
pub mod Definition
pub mod Context
pub mod Capability
pub mod Config
pub mod Registry
pub mod Command
pub mod OpenApi
pub mod Invoker
pub mod Loader
pub mod Search
pub mod Samples
pub mod Metadata
pub mod Transport
pub mod Validator
pub mod Sets
