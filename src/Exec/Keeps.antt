-- ===== src/Exec/Keeps.antt =====
-- Properties of the world that actions keep.
use flatcar_linux_update_ope.Prelude.{String, ◌≡◌, refl, ◌⊎◌, inl, Option, none, some, List}
use flatcar_linux_update_ope.Exec.{
  Outcome, ok, err, panic, Exec, ◌>>=◌, continue, wrap_outcome, wrapping,
}
use flatcar_linux_update_ope.K8sutil.Metadata.{or_panic}

-- A property of the world that an action keeps, whatever comes of it.
abbrev pub Keeps : {W A : Type 0} → (W → Type 0) → Exec W A → Type 0
Keeps {W} P m = (w : W) → P w → P (m w).1

module _ {W A B : Type 0} (P : W → Type 0) where
  pub continue_keeps :
      (r : Outcome A × W) (next : A → Exec W B)
      → P r.1
      → ((a : A) → Keeps P (next a))
      → P (continue r next).1
  continue_keeps (ok a, w) next p k = k a w p
  continue_keeps (err e, w) next p k = p
  continue_keeps (panic, w) next p k = p

  pub >>=-Keeps :
      (m : Exec W A) (next : A → Exec W B)
      → Keeps P m
      → ((a : A) → Keeps P (next a))
      → Keeps P (m >>= next)
  >>=-Keeps m next x k w p = continue_keeps (m w) next (x w p) k

  -- A call whose error ends the program's function: it keeps the property, or its value goes on.
  pub through :
      (D : W → Type 0) (r : Outcome A × W) (next : A → Exec W B)
      → P r.1
      → ((a : A) → r.0 ≡ ok a → P (next a r.1).1 ⊎ D (next a r.1).1)
      → P (continue r next).1 ⊎ D (continue r next).1
  through D (ok a, w) next p k = k a refl
  through D (err e, w) next p k = inl p
  through D (panic, w) next p k = inl p

  pub through_wrapped :
      (D : W → Type 0) (format : String) (args : List String) (r : Outcome A × W)
      (next : A → Exec W B)
      → P r.1
      → ((a : A) → r.0 ≡ ok a → P (next a r.1).1 ⊎ D (next a r.1).1)
      → P (continue (wrap_outcome format args r) next).1
        ⊎ D (continue (wrap_outcome format args r) next).1
  through_wrapped D format args (ok a, w) next p k = k a refl
  through_wrapped D format args (err e, w) next p k = inl p
  through_wrapped D format args (panic, w) next p k = inl p

module _ {W A : Type 0} (P : W → Type 0) where
  pub wrapped_keeps :
      (format : String) (args : List String) (r : Outcome A × W)
      → P r.1
      → P (wrap_outcome format args r).1
  wrapped_keeps format args (ok a, w) p = p
  wrapped_keeps format args (err e, w) p = p
  wrapped_keeps format args (panic, w) p = p

  pub wrapping-Keeps :
      (format : String) (args : List String) (m : Exec W A)
      → Keeps P m
      → Keeps P (wrapping format args m)
  wrapping-Keeps format args m x w p = wrapped_keeps format args (m w) (x w p)

  pub or_panic-Keeps : (o : Option A) → Keeps P (or_panic o)
  or_panic-Keeps none w p = p
  or_panic-Keeps (some a) w p = p

module _ {W A B : Type 0} (P : W → Type 0) where
  pub call-Keeps :
      (format : String) (args : List String) (m : Exec W A) (next : A → Exec W B)
      → Keeps P m
      → ((a : A) → Keeps P (next a))
      → Keeps P (wrapping format args m >>= next)
  call-Keeps format args m next x =
      >>=-Keeps P (wrapping format args m) next (wrapping-Keeps P format args m x)
