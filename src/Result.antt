-- ===== src/Result.antt =====
-- Go functions that return a value or an error and touch nothing else.
use flatcar_linux_update_ope.Prelude.{String, List, Bool, true, false, ◌≡◌, refl, if◌then◌else◌}
use flatcar_linux_update_ope.Exec.{Error, wrap}

pub data Result (A : Type 0) : Type 0 where
  ok : A → Result A
  err : Error → Result A

infixl 10 ◌>>=◌ ◌>>◌
-- `if err != nil { return nil, err }` after a call
abbrev pub ◌>>=◌ : {A B : Type 0} → Result A → (A → Result B) → Result B
r >>= next = elim r [ err e ↦ err e | ok value ↦ next value ]

abbrev pub ◌>>◌ : {B : Type 0} → Result (Unit {0}) → Result B → Result B
check >> next = check >>= λ _. next

-- `if err != nil { return nil, fmt.Errorf(format, args..., err) }`
abbrev pub wrapping : {A : Type 0} → String → List String → Result A → Result A
wrapping format args (ok a) = ok a
wrapping format args (err e) = err (wrap format args e)

-- A guard that returned an error was not met when the whole succeeded.
pub guard_passed :
    {A : Type 0} (met : Bool) (e : Error) (rest : Result A) (a : A)
    → (if met then err e else rest) ≡ ok a
    → (met ≡ false) × (rest ≡ ok a)
guard_passed true e rest a h = cc
guard_passed false e rest a h = (refl, h)

pub calls_passed :
    {A B : Type 0} (format : String) (args : List String) (call : Result A) (next : A → Result B)
    (b : B)
    → (wrapping format args call >>= next) ≡ ok b
    → (a : A) × (call ≡ ok a) × (next a ≡ ok b)
calls_passed format args (err e) next b h = cc
calls_passed format args (ok a) next b h = (a, refl, h)

pub call_passed :
    {A B : Type 0} (call : Result A) (next : A → Result B) (b : B)
    → (call >>= next) ≡ ok b
    → (a : A) × (call ≡ ok a) × (next a ≡ ok b)
call_passed (err e) next b h = cc
call_passed (ok a) next b h = (a, refl, h)

pub ok_injective : {A : Type 0} (a b : A) → ◌≡◌ {A = Result A} (ok a) (ok b) → a ≡ b
ok_injective a b h = cc
