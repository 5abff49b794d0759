-- ===== src/Exec/Laws.antt =====
-- What a chain of calls that succeeded says about its first call.
use flatcar_linux_update_ope.Prelude.{String, List, ◌≡◌, refl}
use flatcar_linux_update_ope.Exec.{Outcome, ok, err, panic, Exec, continue, wrap_outcome}

module _ {W A B : Type 0} where
  pub continue_passed :
      (r : Outcome A × W) (next : A → Exec W B) (b : B)
      → (continue r next).0 ≡ ok b
      → (a : A) × (r.0 ≡ ok a) × ((next a r.1).0 ≡ ok b) × (continue r next ≡ next a r.1)
  continue_passed (ok a, w) next b h = (a, refl, h, refl)
  continue_passed (err e, w) next b h = cc
  continue_passed (panic, w) next b h = cc

  pub wrapped_passed :
      (format : String) (args : List String) (r : Outcome A × W) (next : A → Exec W B) (b : B)
      → (continue (wrap_outcome format args r) next).0 ≡ ok b
      → (a : A) × (r.0 ≡ ok a)
        × ((next a r.1).0 ≡ ok b)
        × (continue (wrap_outcome format args r) next ≡ next a r.1)
  wrapped_passed format args (ok a, w) next b h = (a, refl, h, refl)
  wrapped_passed format args (err e, w) next b h = cc
  wrapped_passed format args (panic, w) next b h = cc

module _ {W A : Type 0} where
  pub wrap_passed :
      (format : String) (args : List String) (r : Outcome A × W) (a : A)
      → (wrap_outcome format args r).0 ≡ ok a
      → (r.0 ≡ ok a) × (wrap_outcome format args r ≡ r)
  wrap_passed format args (ok x, w) a h = (h, refl)
  wrap_passed format args (err e, w) a h = cc
  wrap_passed format args (panic, w) a h = cc

  pub wrapped_done :
      (r : Outcome A × W) (format : String) (args : List String) {a : A}
      → (wrap_outcome format args r).0 ≡ ok a
      → r.0 ≡ ok a
  wrapped_done r format args {a} h = (wrap_passed format args r a h).0

  pub wrapped_world :
      (r : Outcome A × W) (format : String) (args : List String)
      → (wrap_outcome format args r).1 ≡ r.1
  wrapped_world (ok a, w) format args = refl
  wrapped_world (err e, w) format args = refl
  wrapped_world (panic, w) format args = refl
