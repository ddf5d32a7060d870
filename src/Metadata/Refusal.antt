-- ===== src/Metadata/Refusal.antt =====
-- A guard that two operations share: where the one refuses, the other gives the same error.
use thesa.Prelude.{Bool, true, false, not, ◌≡◌, refl, if◌then◌else◌}
use thesa.Errors.{Result, Error, ok, err}

pub refusal :
    {A B W : Type 0} (b : Bool) (x e : Error) (a : A) (w : W) (rest : Result B × W)
    → (if not b then err x else ok a) ≡ err e
    → (if not b then (err x, w) else rest) ≡ (err e, w)
refusal true x e a w rest h = absurd (cc)
refusal false x e a w rest h = cc

pub served :
    {B W : Type 0} (b : Bool) (x : Error) (a : B) (w w' : W) (rest : Result B × W)
    → (if not b then (err x, w) else rest) ≡ (ok a, w')
    → (b ≡ true) × (rest ≡ (ok a, w'))
served true x a w w' rest h = (refl, h)
served false x a w w' rest h = absurd (cc)

pub described :
    {A : Type 0} (b : Bool) (x : Error) (a d : A)
    → (if not b then err x else ok a) ≡ ok d
    → (b ≡ true) × (a ≡ d)
described true x a d h = (refl, cc)
described false x a d h = absurd (cc)
