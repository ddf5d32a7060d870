-- ===== src/Config/Load/Laws.antt =====
-- What a configuration that was loaded can be relied on for.
use mathlib.Core.Path.{subst}
use thesa.Prelude.{
  ◌⊎◌, ◌≢◌, ◌++◌, is_empty_iff, [], is_empty_nil, ◌||◌, Option, none, some, ◌≡◌, refl, sym, ap, ◌∙◌,
  arith, inl, inr, is_empty, Bool-cases,
}
use thesa.Prelude.Int.{ℤ, pos, ◌≤ℤ◌, ltb_ℤ}
use thesa.Prelude.Text.{Text, codes}
use thesa.Errors.{Result, ok, err, Error, wrap_error, ◌>>=◌, >>=-eq-ok, wrap_error-ok}
use thesa.Config.{validate}
use thesa.Config.Load.{
  Config, defaults, with_port, override_port, apply_env_overrides, wrapped, parsed, framed, finish,
  load,
}

validate-ok :
    (port : ℤ) (u : Unit {0}) → validate port ≡ ok u → (pos 1 ≤ℤ port) × (port ≤ℤ pos 65535)
unfolding validate
validate-ok port u h = elim (Bool-cases (ltb_ℤ port (pos 1) || ltb_ℤ (pos 65535) port)) [
  | inl bad ↦ absurd (ground (arith, bad, h))
  | inr good ↦ (ground (arith, good), ground (arith, good))
]

checked_port :
    (r : Result (Unit {0})) (say : Error → Text) {A : Type 0} (a b : A)
    → (wrap_error say r >>= λ u. ok a) ≡ ok b
    → (r ≡ ok tt) × (a ≡ b)
checked_port (err e) say a b h = absurd (cc)
checked_port (ok u) say a b h = (refl, cc)

module _ {F : Type 0} (getenv : Text → Text) (scan_int : Text → Option ℤ) where
  -- A setting of a file, or of the environment in its place.
  abbrev pub LevelFrom : Config F → Config F → Type 0
  LevelFrom file cfg =
      ((getenv (codes "THESA_OBSERVABILITY_LOG_LEVEL") ≡ [])
        × (cfg.observability.log_level ≡ file.observability.log_level))
      ⊎ ((getenv (codes "THESA_OBSERVABILITY_LOG_LEVEL") ≢ [])
          × (cfg.observability.log_level ≡ getenv (codes "THESA_OBSERVABILITY_LOG_LEVEL")))

  abbrev pub PortFrom : Config F → Config F → Type 0
  PortFrom file cfg =
      ((getenv (codes "THESA_SERVER_PORT") ≡ []) × (cfg.server.port ≡ file.server.port))
      ⊎ ((scan_int (getenv (codes "THESA_SERVER_PORT")) ≡ none)
          × (cfg.server.port ≡ file.server.port))
      ⊎ ((getenv (codes "THESA_SERVER_PORT") ≢ [])
          × (scan_int (getenv (codes "THESA_SERVER_PORT")) ≡ some cfg.server.port))

  override_port-level :
      (cfg : Config F)
      → (override_port getenv scan_int cfg).observability.log_level ≡ cfg.observability.log_level
  override_port-level cfg = elim (Bool-cases (is_empty (getenv (codes "THESA_SERVER_PORT")))) [
    | inl unset ↦ rw unset refl
    | inr set ↦ rw set (with_port-level (scan_int (getenv (codes "THESA_SERVER_PORT"))))
  ]
    where
      with_port-level :
          (o : Option ℤ)
          → (with_port getenv scan_int o cfg).observability.log_level ≡ cfg.observability.log_level
      with_port-level none = refl
      with_port-level (some port) = refl

  level_lem : (cfg : Config F) → LevelFrom cfg (apply_env_overrides getenv scan_int cfg)
  unfolding apply_env_overrides
  level_lem cfg = elim (Bool-cases (is_empty (getenv (codes "THESA_OBSERVABILITY_LOG_LEVEL")))) [
    | inl unset ↦ inl (is_empty_nil _ unset, rw unset (override_port-level cfg))
    | inr set ↦ inr ((is_empty_iff _).0 set, rw set refl)
  ]

  -- The log level does not touch the port.
  port_of :
      (cfg : Config F)
      → (apply_env_overrides getenv scan_int cfg).server.port
        ≡ (override_port getenv scan_int cfg).server.port
  unfolding apply_env_overrides
  port_of cfg = elim (Bool-cases (is_empty (getenv (codes "THESA_OBSERVABILITY_LOG_LEVEL")))) [
    | inl unset ↦ rw unset refl
    | inr set ↦ rw set refl
  ]

  with_port_lem :
      (o : Option ℤ) (cfg : Config F)
      → ((o ≡ none) × ((with_port getenv scan_int o cfg).server.port ≡ cfg.server.port))
        ⊎ (o ≡ some (with_port getenv scan_int o cfg).server.port)
  with_port_lem none cfg = inl (refl, refl)
  with_port_lem (some port) cfg = inr refl

  override_port_lem : (cfg : Config F) → PortFrom cfg (override_port getenv scan_int cfg)
  override_port_lem cfg = elim (Bool-cases (is_empty (getenv (codes "THESA_SERVER_PORT")))) [
    | inl unset ↦ inl (is_empty_nil _ unset, rw unset refl)
    | inr set ↦ elim (with_port_lem (scan_int (getenv (codes "THESA_SERVER_PORT"))) cfg) [
      | inl (bad, kept) ↦ inr (inl (bad, rw set kept))
      | inr port ↦ inr (inr ((is_empty_iff _).0 set, rw set port))
    ]
  ]

  port_lem : (cfg : Config F) → PortFrom cfg (apply_env_overrides getenv scan_int cfg)
  port_lem cfg = elim (override_port_lem cfg) [
    | inl (unset, e) ↦ inl (unset, port_of cfg ∙ e)
    | inr (inl (bad, e)) ↦ inr (inl (bad, port_of cfg ∙ e))
    | inr (inr (set, e)) ↦ inr (inr (set, e ∙ ap (λ (p : ℤ). some p) (sym (port_of cfg))))
  ]

  -- A configuration that was loaded has a port from 1 to 65535. Its log level is that of the
  -- environment where it gives one, and its port that of the environment where it gives a number;
  -- otherwise, also where the environment's port is no number, they are those that the file's text
  -- gives over the defaults.
  pub load-From :
      (read_file : Text → Result Text) (unmarshal : Text → Config F → Result (Config F))
      (fill_env : F → Result F) (service_uri : F → Text) (discover : F → Result F) (frame : F)
      (path : Text) (cfg : Config F)
      → load getenv scan_int read_file unmarshal fill_env service_uri discover frame path ≡ ok cfg
      → (pos 1 ≤ℤ cfg.server.port)
        × (cfg.server.port ≤ℤ pos 65535)
        × ((bytes : Text) × (file : Config F) × (read_file path ≡ ok bytes)
            × (unmarshal bytes (defaults frame) ≡ ok file)
            × LevelFrom file cfg
            × PortFrom file cfg)
  unfolding load
  load-From read_file unmarshal fill_env service_uri discover frame path cfg h =
      let finishing = finish getenv scan_int read_file unmarshal fill_env service_uri discover in
      let framing = framed getenv scan_int read_file unmarshal fill_env service_uri discover in
      let (file, p, rest) =
        >>=-eq-ok
          (parsed getenv scan_int read_file unmarshal fill_env service_uri discover frame path)
          (λ c. framing c.frame >>= (λ found. finishing c found)) h in
      let (bytes, r, u) =
        >>=-eq-ok (wrap_error (wrapped (codes "reading " ++ path)) (read_file path)) _ p in
      let (found, f, last) = >>=-eq-ok (framing file.frame) (λ found. finishing file found) rest in
      let placed = record file { frame = found } in
      let overridden = apply_env_overrides getenv scan_int placed in
      let (valid, same) =
        checked_port (validate overridden.server.port) (wrapped (codes "validation")) overridden cfg
          last in
      let (low, high) =
        validate-ok cfg.server.port tt
          (ap (λ (c : Config F). validate c.server.port) (sym same) ∙ valid) in
      (
        low,
        high,
        (
          bytes,
          file,
          wrap_error-ok _ _ _ r,
          wrap_error-ok _ _ _ u,
          subst (λ (c : Config F). LevelFrom placed c) same (level_lem placed),
          subst (λ (c : Config F). PortFrom placed c) same (port_lem placed),
        ),
      )
