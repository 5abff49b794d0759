-- ===== src/Client.antt =====
-- What the program takes from outside: the API server's client for nodes
-- (k8s.io/client-go/kubernetes/typed/core/v1), the retry loops (k8s.io/client-go/util/retry) and
-- the selectors (k8s.io/apimachinery/pkg/{fields,labels}). The records are their operations; the
-- documented behaviour that theorems rely on is in the records of Client/Laws.antt.
pub mod Laws
use flatcar_linux_update_ope.Prelude.{String, Bool, Option, List}
use flatcar_linux_update_ope.GoMap.{GoMap}
use flatcar_linux_update_ope.Exec.{Error, Exec}
use flatcar_linux_update_ope.Node.{Node}

pub record NodeClient : Type 1 where
  pub World : Type 0
  -- `nc.List` with a label selector, `""` for all nodes
  pub list : String → Exec World (List Node)
  -- `nc.Get` by name
  pub get : String → Exec World Node
  -- `nc.Update`
  pub update : Node → Exec World Node
  -- `errors.IsConflict`
  pub is_conflict : Error → Bool
  -- `retry.RetryOnConflict(retry.DefaultBackoff, fn)`
  pub retry_on_conflict : Exec World (Unit {0}) → Exec World (Unit {0})
  -- `retry.OnError(retry.DefaultBackoff, retriable, fn)`, where `fn` also sets a variable of its
  -- caller when it succeeds
  pub on_error : (Error → Bool) → Exec World Node → Exec World Node

-- `selection.Operator`
pub data Operator : Type 0 where
  is_in not_in : Operator

pub record Selectors : Type 1 where
  pub FieldSelector : Type 0
  -- `fields.Set(m).AsSelector()`
  pub set_as_selector : List (String × String) → FieldSelector
  -- `fields.ParseSelectorOrDie(s)`; `none` is its panic
  pub parse_selector_or_die : String → Option FieldSelector
  -- `sel.Matches(fields.Set(m))`
  pub selects : FieldSelector → GoMap → Bool
  pub Requirement : Type 0
  -- `labels.NewRequirement(key, op, vals)`; `none` is its error
  pub new_requirement : String → Operator → List String → Option Requirement
  -- `req.Matches(labels.Set(m))`
  pub meets : Requirement → GoMap → Bool
