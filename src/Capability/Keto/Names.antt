-- ===== src/Capability/Keto/Names.antt =====
-- The names of permissions: colons become underscores, and back.
use mathlib.Core.List.{map-append}
use thesa.Prelude.{ℕ, [], ◌∷◌, ◌++◌, ◌≡◌, refl, sym, ◌∙◌, ap, arith, map, ◌==◌, if◌then◌else◌}
use thesa.Prelude.Text.{Text, codes, has_prefix, Lacks}
use thesa.Prelude.Strings.{replace_all}
use thesa.Capability.Keto.{capability_to_permission, permission_to_capability}

replace_byte : ℕ → ℕ → ℕ → ℕ
replace_byte old new c = if c == old then new else c

has_prefix_one : (c d : ℕ) (s : Text) → has_prefix (c ∷ s) (d ∷ []) ≡ (c == d)
unfolding has_prefix
has_prefix_one c d s = ground arith

replace_all-map :
    (old new : ℕ) (s : Text) → replace_all s (old ∷ []) (new ∷ []) ≡ map (replace_byte old new) s
unfolding replace_all replace_byte
replace_all-map old new [] = refl
replace_all-map old new (c ∷ s) = ground (arith, has_prefix_one c old s, replace_all-map old new s)

-- A permission is the capability with each colon as an underscore.
capability_to_permission-map :
    (c : Text) → capability_to_permission c ≡ map (replace_byte b':' b'_') c
unfolding capability_to_permission
capability_to_permission-map c = replace_all-map b':' b'_' c

replace_back :
    (s : Text) → Lacks b'_' s → map (replace_byte b'_' b':') (map (replace_byte b':' b'_') s) ≡ s
unfolding replace_byte
replace_back [] h = refl
replace_back (c ∷ s) h = ground (arith, replace_back s h.1)

-- A capability without underscores is read back from its permission.
pub permission_to_capability_to_permission :
    (c : Text) → Lacks b'_' c → permission_to_capability (capability_to_permission c) ≡ c
unfolding permission_to_capability
permission_to_capability_to_permission c h =
    rw capability_to_permission-map (replace_all-map b'_' b':' _ ∙ replace_back c h)

same_bytes :
    (c d : Text)
    → Lacks b'_' c
    → Lacks b'_' d
    → map (replace_byte b':' b'_') c ≡ map (replace_byte b':' b'_') d
    → c ≡ d
same_bytes c d hc hd e =
    sym (replace_back c hc) ∙ ap (map (replace_byte b'_' b':')) e ∙ replace_back d hd

-- Different capabilities without underscores are checked under different permissions.
pub capability_to_permission_injective :
    (c d : Text)
    → Lacks b'_' c
    → Lacks b'_' d
    → capability_to_permission c ≡ capability_to_permission d
    → c ≡ d
capability_to_permission_injective c d hc hd e =
    same_bytes c d hc hd (sym (capability_to_permission-map c) ∙ e ∙ capability_to_permission-map d)

-- A colon may be exchanged for an underscore anywhere, and the permission stays the same: two
-- capabilities that differ in that are one permission to the service.
pub capability_to_permission_collision :
    (s t : Text)
    → capability_to_permission (s ++ (codes ":" ++ t))
      ≡ capability_to_permission (s ++ (codes "_" ++ t))
capability_to_permission_collision s t =
    simp (capability_to_permission-map, map-append) (unfold replace_byte in refl)
