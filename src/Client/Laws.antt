-- ===== src/Client/Laws.antt =====
-- Documented behaviour of the calls of NodeClient: the retry loops, and an API server on which the
-- nodes change by the program's own writes alone.
use flatcar_linux_update_ope.Prelude.{
  ℕ, zero, suc, String, ◌<>◌, ◌==◌, ◌≡◌, ◌⊎◌, Bool, true, not, Option, none, some, List, [], ◌∷◌,
  filter, if◌then◌else◌,
}
use flatcar_linux_update_ope.Constants.{label_after_reboot, true_value}
use flatcar_linux_update_ope.GoMap.{index}
use flatcar_linux_update_ope.Exec.{Error, Outcome, ok, err, panic, Exec}
use flatcar_linux_update_ope.Node.{Node}
use flatcar_linux_update_ope.Client.{NodeClient}

-- `retry.DefaultBackoff.Steps` is 4: one call, and three more at most.
abbrev pub default_retries : ℕ
default_retries = 3

abbrev pub again : {W A : Type 0} → (Error → Bool) → Exec W A → Outcome A × W → Outcome A × W
again retriable next (ok a, w) = (ok a, w)
again retriable next (err e, w) = if retriable e then next w else (err e, w)
again retriable next (panic, w) = (panic, w)

-- `fn` is called again after an error that is retriable, `n` more times at most, and the last
-- error is returned. `pause` is what happens in the world between two calls.
module _ {W A : Type 0} (retriable : Error → Bool) (pause : W → W) (fn : Exec W A) where
  unfoldable pub attempts : ℕ → W → Outcome A × W
  attempts zero w = fn w
  attempts (suc n) w = again retriable (λ v. attempts n (pause v)) (fn w)

abbrev pub find : String → List Node → Option Node
find k [] = none
find k (n ∷ ns) = if n.name == k then some n else find k ns

-- The stored nodes after a write of the node `m`.
abbrev pub replace : Node → List Node → List Node
replace m [] = []
replace m (n ∷ ns) = (if n.name == m.name then m else n) ∷ replace m ns

abbrev pub after_reboot_ne_true : String
after_reboot_ne_true = label_after_reboot <> "!=" <> true_value

-- Reads return what is stored, a write that succeeds stores its node, one that meets a conflict
-- stores nothing, and one that fails otherwise may or may not have stored it.
pub record IsQuiet (c : NodeClient) : Type 0 where
  pub nodes : c.World → List Node
  pub pause : c.World → c.World
  pub nodes-pause : (w : c.World) → nodes (pause w) ≡ nodes w
  pub retry_on_conflict_lem :
      (fn : Exec c.World (Unit {0})) (w : c.World)
      → c.retry_on_conflict fn w ≡ attempts c.is_conflict pause fn default_retries w
  pub on_error_lem :
      (retriable : Error → Bool) (fn : Exec c.World Node) (w : c.World)
      → c.on_error retriable fn w ≡ attempts retriable pause fn default_retries w
  pub nodes-list : (s : String) (w : c.World) → nodes (c.list s w).1 ≡ nodes w
  pub list_all : (w : c.World) (ns : List Node) → (c.list "" w).0 ≡ ok ns → ns ≡ nodes w
  pub list_ne :
      (w : c.World) (ns : List Node)
      → (c.list after_reboot_ne_true w).0 ≡ ok ns
      → ns ≡ filter (λ n. not (index n.labels label_after_reboot == true_value)) (nodes w)
  pub nodes-get : (k : String) (w : c.World) → nodes (c.get k w).1 ≡ nodes w
  pub get_finds :
      (k : String) (w : c.World) (n : Node) → (c.get k w).0 ≡ ok n → find k (nodes w) ≡ some n
  pub update_stores :
      (n m : Node) (w : c.World)
      → (c.update n w).0 ≡ ok m
      → nodes (c.update n w).1 ≡ replace n (nodes w)
  pub update_conflicts :
      (n : Node) (e : Error) (w : c.World)
      → (c.update n w).0 ≡ err e
      → c.is_conflict e ≡ true
      → nodes (c.update n w).1 ≡ nodes w
  pub update_may_store :
      (n : Node) (w : c.World)
      → (nodes (c.update n w).1 ≡ replace n (nodes w)) ⊎ (nodes (c.update n w).1 ≡ nodes w)
