-- ===== src/Tests/Agents.antt =====
-- The agent on a sample host and node, and a bus that refuses its user.
use mathlib.Core.Bool.{false≢true}
use flatcar_linux_update_ope.Prelude.{
  eq_iff, ℕ, ◌-◌, suc, ◌≡◌, ◌≢◌, refl, inl, inr, String, ◌==◌, true, false, none, some, List, [],
  ◌∷◌, Bool-cases, if◌then◌else◌,
}
use flatcar_linux_update_ope.Prelude.Int.{pos}
use flatcar_linux_update_ope.GoMap.{GoMap, entry}
use flatcar_linux_update_ope.GoMap.Laws.{is_made}
use flatcar_linux_update_ope.Exec.{wrap, message, ok, err, Exec, for_each}
use flatcar_linux_update_ope.K8sutil.Metadata.Names.{modify}
use flatcar_linux_update_ope.Operator.Vars.Meaning.{still_rebooting}
use flatcar_linux_update_ope.Operator.Process.Flags.{IsSafe}
use flatcar_linux_update_ope.Updateengine.{Status, update_status_updated_need_reboot}
use flatcar_linux_update_ope.Agent.{
  Host, empty_map, update_conf_path, split_newline_env, get_update_map, watch_update_status,
  should_reboot, not_ok_to_reboot,
}
use flatcar_linux_update_ope.Agent.Files.{
  or_else, last_value, split_newline_env-entry, get_update_map-entry,
}
use flatcar_linux_update_ope.Agent.Watch.{Changing, last_operation, watch_update_status-eq-for_each}
use flatcar_linux_update_ope.Agent.Writes.{drain, write_f}
use flatcar_linux_update_ope.Agent.Protocol.Kept.{Kept, write_f-Kept, should_reboot-eq}
use flatcar_linux_update_ope.Operator.Process.Pairwise.{Pairwise}
use flatcar_linux_update_ope.Dbus.{Bus, UpdateClient, new, new_update_client, close_client}
use flatcar_linux_update_ope.Dbus.Laws.{
  CountsOpen, Balanced, new-Balanced, KeepsOpen, new_update_client-new,
}
use flatcar_linux_update_ope.Tests.Memory.{plain_selectors, plain_selectors-IsLawful}
use flatcar_linux_update_ope.Tests.Samples.{cluster, rebooted}
use flatcar_linux_update_ope.Tests.Pass.{cluster-IsSafe, vars, loaded}

write_f-Kept_example :
    IsSafe 3 (modify "a" (write_f (drain false)) cluster)
    × Pairwise Kept cluster (modify "a" (write_f (drain false)) cluster)
write_f-Kept_example =
    write_f-Kept "a" (drain false) 3 cluster
      (
        λ e. refl,
        (
          λ e. absurd (false≢true ((eq_iff "b" "a").1 e)),
          (λ e. refl, (λ e. absurd (false≢true ((eq_iff "d" "a").1 e)), tt)),
        ),
      )
      cluster-IsSafe

should_reboot-eq_example :
    (should_reboot plain_selectors rebooted.annotations
      ≡ plain_selectors.selects vars.still_rebooting_selector rebooted.annotations)
    × (should_reboot plain_selectors rebooted.annotations ≡ still_rebooting rebooted.annotations)
    × (should_reboot plain_selectors rebooted.annotations ≡ true
        → not_ok_to_reboot rebooted.annotations ≡ false)
    × (plain_selectors.selects vars.just_rebooted_selector rebooted.annotations ≡ true
        → not_ok_to_reboot rebooted.annotations ≡ false)
should_reboot-eq_example =
    should_reboot-eq plain_selectors vars plain_selectors-IsLawful loaded rebooted.annotations

abbrev split : String → List String
split s =
    if s == "GROUP=stable"
    then "GROUP" ∷ "stable" ∷ []
    else if s == "GROUP=beta"
    then "GROUP" ∷ "beta" ∷ []
    else s ∷ []

abbrev pub host : Host (Unit {0})
host = record {
  read_file = λ path w. (ok (if path == update_conf_path then "GROUP=stable" else "GROUP=beta"), w);
  is_not_exist = λ e. false;
  join = λ a b. b;
  scan = λ s. s ∷ [];
  split_2 = split;
}

split_full : (s : String) → split s ≢ []
split_full s = elim (Bool-cases (s == "GROUP=stable")) [
  | inl e ↦ rw e (λ h. cc)
  | inr e ↦ elim (Bool-cases (s == "GROUP=beta")) [
    | inl e1 ↦ rw (e, e1) (λ h. cc)
    | inr e1 ↦ rw (e, e1) (λ h. cc)
  ]
]

split_newline_env-entry_example :
    (n : GoMap) × (split_newline_env host empty_map "GROUP=stable" ≡ some n)
    × (is_made n ≡ true)
    × ((k : String) → entry n k ≡ or_else (last_value host k ("GROUP=stable" ∷ [])) none)
split_newline_env-entry_example =
    split_newline_env-entry host split_full empty_map "GROUP=stable" refl

get_update_map-entry_example :
    (n : GoMap) × (get_update_map host "" tt ≡ (ok n, tt))
    × ((k : String)
        → entry n k
          ≡ or_else
              (last_value host k ("GROUP=beta" ∷ []))
              (last_value host k ("GROUP=stable" ∷ [])))
get_update_map-entry_example =
    get_update_map-entry host split_full "" "GROUP=stable" "GROUP=beta" tt tt tt refl refl

abbrev reporting : String → Status
reporting operation = record {
  last_checked_time = pos 1;
  progress = pos 0;
  current_operation = operation;
  new_version = "0.0.0";
  new_size = pos 0;
}

abbrev statuses : List Status
statuses =
    reporting "UPDATE_STATUS_IDLE"
    ∷ reporting "UPDATE_STATUS_IDLE"
    ∷ reporting update_status_updated_need_reboot
    ∷ []

abbrev note : Status → Exec (List String) (Unit {0})
note status w = (ok tt, status.current_operation ∷ w)

watch_update_status-eq-for_each_example :
    (l : List Status) × ((w : List String)
      → watch_update_status note "" statuses w ≡ for_each l note w)
    × Changing "" l
    × (last_operation "" l ≡ last_operation "" statuses)
watch_update_status-eq-for_each_example = watch_update_status-eq-for_each note "" statuses

-- The state is the number of connections that are open.
abbrev refusing : Bus ℕ
refusing = record {
  Connection = Unit {0};
  Channel = Unit {0};
  Object = Unit {0};
  auth = λ conn w. (err (message "authentication failed" []), w);
  hello = λ conn w. (ok tt, w);
  close = λ conn w. (ok tt, w - 1);
  add_match_signal = λ conn interface member w. (ok tt, w);
  signal = λ conn n w. (ok tt, w);
  object = λ conn destination path. tt;
  call = λ object method w. (ok [], w);
}

abbrev connect : Exec ℕ (Unit {0})
connect w = (ok tt, suc w)

abbrev counted : CountsOpen refusing connect
counted = record {
  opens = λ w. w;
  connects = λ w. inl (tt, refl, refl);
  auth_keeps = λ conn w. (refl, inr (message "authentication failed" [], refl));
  hello_keeps = λ conn w. (refl, inl refl);
  closes = λ conn w. refl;
}

new-Balanced_example : Balanced refusing connect counted 0 (new refusing (some connect) 0)
new-Balanced_example = new-Balanced refusing connect counted 0

-- A bus that accepts the user and refuses the filter.
abbrev unfiltered : Bus ℕ
unfiltered = record {
  Connection = Unit {0};
  Channel = Unit {0};
  Object = Unit {0};
  auth = λ conn w. (ok tt, w);
  hello = λ conn w. (ok tt, w);
  close = λ conn w. (ok tt, w - 1);
  add_match_signal = λ conn interface member w. (err (message "match refused" []), w);
  signal = λ conn n w. (ok tt, w);
  object = λ conn destination path. tt;
  call = λ object method w. (ok [], w);
}

-- A bus that accepts all.
abbrev accepting : Bus ℕ
accepting = record {
  Connection = Unit {0};
  Channel = Unit {0};
  Object = Unit {0};
  auth = λ conn w. (ok tt, w);
  hello = λ conn w. (ok tt, w);
  close = λ conn w. (ok tt, w - 1);
  add_match_signal = λ conn interface member w. (ok tt, w);
  signal = λ conn n w. (ok tt, w);
  object = λ conn destination path. tt;
  call = λ object method w. (ok [], w);
}

abbrev counted_accepting : CountsOpen accepting connect
counted_accepting = record {
  opens = λ w. w;
  connects = λ w. inl (tt, refl, refl);
  auth_keeps = λ conn w. (refl, inl refl);
  hello_keeps = λ conn w. (refl, inl refl);
  closes = λ conn w. refl;
}

abbrev accepting-KeepsOpen : KeepsOpen accepting connect counted_accepting
accepting-KeepsOpen = record {
  match_keeps = λ conn interface member w. refl;
  signal_keeps = λ conn n w. refl;
}

new_update_client-new_example :
    ((new_update_client accepting (some connect) 0).1 ≡ (new accepting (some connect) 0).1)
    × ((client : UpdateClient accepting)
        → (new_update_client accepting (some connect) 0).0 ≡ ok client
        → (close_client accepting client (new_update_client accepting (some connect) 0).1).1 ≡ 0)
new_update_client-new_example =
    new_update_client-new accepting connect counted_accepting accepting-KeepsOpen 0

-- The connection stays open, and nobody has it.
leaked :
    new_update_client unfiltered (some connect) 0
    ≡ (err (wrap "adding filter: %w" [] (message "match refused" [])), 1)
unfolding new_update_client new
leaked = refl
