-- ===== src/Tests/Machines.antt =====
-- A sample machine for the agent, whose world counts its reboots.
use flatcar_linux_update_ope.Prelude.{
  ℕ, zero, suc, ◌≡◌, inl, inr, Bool, none, List, [], ◌∷◌, Bool-cases,
}
use flatcar_linux_update_ope.Exec.{Error, Outcome, ok, err, panic, Exec}
use flatcar_linux_update_ope.Node.{Node}
use flatcar_linux_update_ope.Client.{NodeClient}
use flatcar_linux_update_ope.Client.Laws.{find, replace, again, attempts, default_retries}
use flatcar_linux_update_ope.Agent.{Host}
use flatcar_linux_update_ope.Agent.Wait.{Watching}
use flatcar_linux_update_ope.Agent.Process.{answered, Machine}
use flatcar_linux_update_ope.Exec.Keeps.{Keeps}
use flatcar_linux_update_ope.Agent.Process.Calm.{Calm}
use flatcar_linux_update_ope.Tests.Memory.{is_conflict, found, plain_selectors}
use flatcar_linux_update_ope.Tests.Agents.{host}
use flatcar_linux_update_ope.Tests.Waits.{permitting, finished}

-- The stored nodes, and the number of reboots.
abbrev pub World : Type 0
World = List Node × ℕ

abbrev pub client : NodeClient
client = record {
  World = World;
  list = λ s w. (ok w.0, w);
  get = λ k w. (found (find k w.0), w);
  update = λ n w. (ok n, (replace n w.0, w.1));
  is_conflict = is_conflict;
  retry_on_conflict = λ fn. attempts is_conflict (λ w. w) fn default_retries;
  on_error = λ retriable fn. attempts retriable (λ w. w) fn default_retries;
}

module _ (W : Type 0) where
  abbrev pub files : Host W
  files = record {
    read_file = λ path w. ((host.read_file path tt).0, w);
    is_not_exist = host.is_not_exist;
    join = host.join;
    scan = host.scan;
    split_2 = host.split_2;
  }

  abbrev pub permitted : Watching W
  permitted = record {
    Watcher = Unit {0};
    watch = λ node w. (ok tt, w);
    until_without_retry = λ watcher f w. (finished (f permitting), w);
  }

  abbrev pub machine : (W → W) → Machine W
  machine reboot = record {
    Pod = Unit {0};
    start_watching = λ w. w;
    select = λ fn w. (answered (fn w).0, (fn w).1);
    get_pods_for_deletion = λ name w. ((tt ∷ [], []), w);
    delete_or_evict_pods = λ pods w. (ok tt, w);
    ctx_err = λ w. none;
    reboot = reboot;
    sleep_or_done = λ w. w;
  }

abbrev pub counting : Machine World
counting = machine World (λ w. (w.0, suc w.1))

module _ {W A : Type 0} (P : W → Type 0) (retriable : Error → Bool) (fn : Exec W A)
    (keeps : Keeps P fn) where
  again-Keeps :
      (next : Exec W A) (r : Outcome A × W) → Keeps P next → P r.1 → P (again retriable next r).1
  again-Keeps next (ok a, w) k p = p
  again-Keeps next (err e, w) k p = elim (Bool-cases (retriable e)) [
    | inl x ↦ rw x (k w p)
    | inr x ↦ rw x p
  ]
  again-Keeps next (panic, w) k p = p

  pub attempts-Keeps : (n : ℕ) → Keeps P (attempts retriable (λ w. w) fn n)
  unfolding attempts
  attempts-Keeps zero w p = keeps w p
  attempts-Keeps (suc n) w p =
      again-Keeps (λ v. attempts retriable (λ w. w) fn n v) (fn w) (attempts-Keeps n) (keeps w p)

abbrev pub Unrebooted : World → Type 0
Unrebooted w = w.1 ≡ 0

pub unrebooted :
    Calm client plain_selectors (files World) (permitted World) counting "" "a" Unrebooted
unrebooted = record {
  reads = record {
    get = λ k w p. p;
    on_error = λ retriable fn k. attempts-Keeps Unrebooted retriable fn k default_retries;
    read_file = λ path w p. p;
    watch = λ n w p. p;
    until_without_retry = λ watcher f w p. p;
  };
  update = λ n w p. p;
  retry_on_conflict = λ fn k. attempts-Keeps Unrebooted is_conflict fn k default_retries;
  start_watching = λ w p. p;
  select = λ fn k w p. k w p;
  get_pods_for_deletion = λ k w p. p;
  delete_or_evict_pods = λ pods w p. p;
}
