-- ===== src/Tests/Memory.antt =====
-- An API server in memory, with the selectors and the retry loops as documented.
use mathlib.Core.Option.{some-injective}
use flatcar_linux_update_ope.Prelude.{
  String, ◌==◌, ◌≡◌, refl, sym, ap, inl, Bool, true, false, not, ◌&&◌, Option, none, some, List,
  all, filter, if◌then◌else◌, arith,
}
use flatcar_linux_update_ope.Constants.{label_after_reboot, true_value}
use flatcar_linux_update_ope.GoMap.{GoMap, index, has, contains}
use flatcar_linux_update_ope.Exec.{
  Error, message, remote, wrap, conflict, not_found, other, Outcome, ok, err,
}
use flatcar_linux_update_ope.Node.{Node}
use flatcar_linux_update_ope.Client.{NodeClient, Selectors, Operator, is_in, not_in}
use flatcar_linux_update_ope.Client.Laws.{
  IsQuiet, find, replace, attempts, default_retries, after_reboot_ne_true,
}
use flatcar_linux_update_ope.Operator.Vars.{rebootable_text}
use flatcar_linux_update_ope.Operator.Vars.Meaning.{IsLawful, rebootable}

abbrev pub is_conflict : Error → Bool
is_conflict (message format args) = false
is_conflict (remote conflict) = true
is_conflict (remote not_found) = false
is_conflict (remote (other r)) = false
is_conflict (wrap format args e) = is_conflict e

abbrev pub found : Option Node → Outcome Node
found none = err (remote not_found)
found (some n) = ok n

abbrev pub listed : String → List Node → List Node
listed s ns =
    if s == after_reboot_ne_true
    then filter (λ n. not (index n.labels label_after_reboot == true_value)) ns
    else ns

abbrev pub memory : NodeClient
memory = record {
  World = List Node;
  list = λ s w. (ok (listed s w), w);
  get = λ k w. (found (find k w), w);
  update = λ n w. (ok n, replace n w);
  is_conflict = is_conflict;
  retry_on_conflict = λ fn. attempts is_conflict (λ w. w) fn default_retries;
  on_error = λ retriable fn. attempts retriable (λ w. w) fn default_retries;
}

pub found-some : (o : Option Node) (n : Node) → found o ≡ ok n → o ≡ some n
found-some none n h = cc
found-some (some m) n h = ground arith

pub ok_injective : {A : Type 0} (a b : A) → ok a ≡ ok b → a ≡ b
ok_injective a b h = cc

pub ok_ne_err : (n : Node) (e : Error) → ◌≡◌ {A = Outcome Node} (ok n) (err e) → ⊥
ok_ne_err n e h = cc

abbrev pub memory-IsQuiet : IsQuiet memory
memory-IsQuiet = record {
  nodes = λ w. w;
  pause = λ w. w;
  nodes-pause = λ w. refl;
  retry_on_conflict_lem = λ fn w. refl;
  on_error_lem = λ retriable fn w. refl;
  nodes-list = λ s w. refl;
  list_all = λ w ns h. ok_injective ns w (sym h);
  list_ne = λ w ns h. ok_injective ns _ (sym h);
  nodes-get = λ k w. refl;
  get_finds = λ k w n h. found-some (find k w) n h;
  update_stores = λ n m w h. refl;
  update_conflicts = λ n e w h x. absurd (ok_ne_err n e h);
  update_may_store = λ n w. inl refl;
}

abbrev pub met : String → Operator → List String → GoMap → Bool
met k is_in vs m = has m k && contains vs (index m k)
met k not_in vs m = not (has m k && contains vs (index m k))

abbrev pub parsed : String → Option (GoMap → Bool)
parsed s = if s == rebootable_text then some rebootable else none

abbrev pub plain_selectors : Selectors
plain_selectors = record {
  FieldSelector = GoMap → Bool;
  set_as_selector = λ ts m. all (λ t. index m t.0 == t.1) ts;
  parse_selector_or_die = parsed;
  selects = λ sel m. sel m;
  Requirement = GoMap → Bool;
  new_requirement = λ k op vs. some (met k op vs);
  meets = λ r m. r m;
}

some_at : {A B : Type 0} (f g : A → B) (a : A) → some f ≡ some g → g a ≡ f a
some_at {A} {B} f g a h = sym (ap (λ (u : A → B). u a) (some-injective f g h))

pub plain_selectors-IsLawful : IsLawful plain_selectors
plain_selectors-IsLawful = record {
  set_as_selector_lem = λ ts m. refl;
  parse_rebootable = λ sel m h. some_at rebootable sel m h;
  meets_in = λ k vs r m h. some_at (met k is_in vs) r m h;
  meets_not_in = λ k vs r m h. some_at (met k not_in vs) r m h;
}
