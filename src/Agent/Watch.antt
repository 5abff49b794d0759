-- ===== src/Agent/Watch.antt =====
-- `watchUpdateStatus`: which statuses reach its callback.
use mathlib.Core.Bool.{true≢false}
use flatcar_linux_update_ope.Prelude.{
  String, ◌==◌, eq_iff, ◌≡◌, ◌≢◌, refl, ◌∙◌, ap, sym, List, [], ◌∷◌, Bool-cases, inl, inr, fun_ext,
}
use flatcar_linux_update_ope.Exec.{Exec, for_each, continue}
use flatcar_linux_update_ope.Updateengine.{Status}
use flatcar_linux_update_ope.Agent.{watch_update_status}

-- Each operation differs from the one before it, the first from `old`.
abbrev pub Changing : String → List Status → Type 0
Changing old [] = Unit
Changing old (x ∷ xs) = (x.current_operation ≢ old) × Changing x.current_operation xs

abbrev pub last_operation : String → List Status → String
last_operation old [] = old
last_operation old (x ∷ xs) = last_operation x.current_operation xs

module _ {W : Type 0} (update : Status → Exec W (Unit {0})) where
  -- The callback runs on a list of statuses, in order, until it panics: each of them has another
  -- operation than the one before it, and the last has the last operation received.
  pub watch_update_status-eq-for_each :
      (old : String) (statuses : List Status)
      → (l : List Status) × ((w : W)
          → watch_update_status update old statuses w ≡ for_each l update w)
        × Changing old l
        × (last_operation old l ≡ last_operation old statuses)
  unfolding watch_update_status for_each
  watch_update_status-eq-for_each old [] = ([], λ w. refl, tt, refl)
  watch_update_status-eq-for_each old (x ∷ xs) = elim (Bool-cases (x.current_operation == old)) [
    | inl same ↦
        let (l, runs, changing, last) = watch_update_status-eq-for_each old xs in
        let is_old : x.current_operation ≡ old = (eq_iff x.current_operation old).0 same in
        (l, λ w. rw same (runs w), changing, last ∙ ap (λ o. last_operation o xs) (sym is_old))
    | inr differs ↦
        let (l, runs, changing, last) = watch_update_status-eq-for_each x.current_operation xs in
        (
          x ∷ l,
          λ w. rw differs (ap (continue (update x w)) (fun_ext λ a. fun_ext λ v. runs v)),
          (
            λ e. absurd (true≢false (sym ((eq_iff x.current_operation old).1 e) ∙ differs)),
            changing,
          ),
          last,
        )
  ]
