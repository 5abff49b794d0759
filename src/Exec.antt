-- ===== src/Exec.antt =====
-- Go functions that call the API server and may fail or panic: actions on the state of the world.
-- What was written before an error stays written, so the state comes back beside the error too.
pub mod Laws
pub mod Keeps
use flatcar_linux_update_ope.Prelude.{String, List, [], ◌∷◌}

-- The reasons of an API server's answer that the program's own code and its callees tell apart.
pub data Reason : Type 0 where
  conflict not_found : Reason
  other : String → Reason

-- `wrap` is `fmt.Errorf` with the verb `%w`: its format, its other arguments and the error inside.
pub data Error : Type 0 where
  message : String → List String → Error
  remote : Reason → Error
  wrap : String → List String → Error → Error

pub data Outcome (A : Type 0) : Type 0 where
  ok : A → Outcome A
  err : Error → Outcome A
  panic : Outcome A

abbrev pub Exec : Type 0 → Type 0 → Type 0
Exec W A = W → Outcome A × W

module _ {W A B : Type 0} where
  abbrev pub continue : Outcome A × W → (A → Exec W B) → Outcome B × W
  continue (ok a, w) f = f a w
  continue (err e, w) f = (err e, w)
  continue (panic, w) f = (panic, w)

  -- `if err != nil { return err }` after each call
  infixl 10 ◌>>=◌
  abbrev pub ◌>>=◌ : Exec W A → (A → Exec W B) → Exec W B
  ◌>>=◌ m f w = continue (m w) f

module _ {W B : Type 0} where
  infixl 10 ◌>>◌
  abbrev pub ◌>>◌ : Exec W (Unit {0}) → Exec W B → Exec W B
  m >> n = m >>= λ _. n

module _ {W A : Type 0} where
  abbrev pub pure : A → Exec W A
  pure a w = (ok a, w)

  abbrev pub fail : Error → Exec W A
  fail e w = (err e, w)

  abbrev pub crash : Exec W A
  crash w = (panic, w)

  abbrev pub wrap_outcome : String → List String → Outcome A × W → Outcome A × W
  wrap_outcome format args (ok a, w) = (ok a, w)
  wrap_outcome format args (err e, w) = (err (wrap format args e), w)
  wrap_outcome format args (panic, w) = (panic, w)

  -- `if err != nil { return fmt.Errorf(format, args..., err) }`
  abbrev pub wrapping : String → List String → Exec W A → Exec W A
  wrapping format args m w = wrap_outcome format args (m w)

  -- `for _, x := range xs { if err := body(x); err != nil { return err } }`
  unfoldable pub for_each : List A → (A → Exec W (Unit {0})) → W → Outcome (Unit {0}) × W
  for_each [] body w = (ok tt, w)
  for_each (x ∷ xs) body w = continue (body x w) (λ _. for_each xs body)
