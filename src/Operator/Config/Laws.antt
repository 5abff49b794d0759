-- ===== src/Operator/Config/Laws.antt =====
-- The configuration that `New` of pkg/operator/operator.go accepts, and `insideRebootWindow` on the
-- reboot window that it parsed.
use mathlib.Core.Bool.{false≢true}
use mathlib.Core.Option.{some-injective, some-ne-none}
use flatcar_linux_update_ope.Prelude.{
  [], ℕ, ◌+◌, ◌≤◌, ◌≡◌, ◌≢◌, String, ◌*◌, eq_iff, refl, ◌∙◌, sym, ap, subst, ◌==◌, Bool, true,
  false, not, ◌&&◌, Option, none, some, ltb, Bool-cases, inl, inr, if◌then◌else◌,
}
use flatcar_linux_update_ope.Prelude.Int.{ℤ, pos, pos_part, eqb_ℤ}
use flatcar_linux_update_ope.Exec.{Error}
use flatcar_linux_update_ope.Result.{
  ◌>>=◌, wrapping, Result, ok, err, guard_passed, calls_passed, call_passed, ok_injective,
}
use flatcar_linux_update_ope.Clock.{Clock, TextLib}
use flatcar_linux_update_ope.Periodic.{Periodic}
use flatcar_linux_update_ope.Periodic.Calendar.{IsSteady}
use flatcar_linux_update_ope.Periodic.Parse.{parse_periodic}
use flatcar_linux_update_ope.Periodic.Validity.{parse_periodic-IsValid}
use flatcar_linux_update_ope.Periodic.Schedule.{Occurs, valid-Occurs}
use flatcar_linux_update_ope.Operator.Config.{
  Config, Kontroller, LockMaker, check_config, new_resource_lock, make_reboot_window, configured,
  new, or_default,
}
use flatcar_linux_update_ope.Operator.Marks.{inside_reboot_window}

-- The start and the length of the reboot window are both given.
abbrev HasWindow : {Client : Type 0} → Config Client → Type 0
HasWindow config = (config.reboot_window_start ≢ "") × (config.reboot_window_length ≢ "")

-- What `New` promises of the settings that it returns for the configuration.
pub record Accepted {Client : Type 0} (t : TextLib) (config : Config Client) (k : Kontroller)
    : Type 0 where
  pub has_client : config.client ≢ none
  pub has_namespace : (config.namespace == "") ≡ false
  pub has_lock_id : (config.lock_id == "") ≡ false
  pub before : k.before_reboot_annotations ≡ config.before_reboot_annotations
  pub after : k.after_reboot_annotations ≡ config.after_reboot_annotations
  pub same_namespace : k.namespace ≡ config.namespace
  pub max :
      k.max_rebooting_nodes
      ≡ (if eqb_ℤ config.max_rebooting_nodes (pos 0) then pos 1 else config.max_rebooting_nodes)
  pub reconciliation : k.reconciliation_period ≡ (
      if eqb_ℤ config.reconciliation_period (pos 0)
      then pos (30 * 1000000000)
      else config.reconciliation_period)
  pub lease : k.leader_election_lease ≡ (
      if eqb_ℤ config.leader_election_lease (pos 0)
      then pos (90 * 1000000000)
      else config.leader_election_lease)
  pub windowed :
      (p : Periodic)
      → k.reboot_window ≡ some p
      → HasWindow config
        × (parse_periodic t config.reboot_window_start config.reboot_window_length ≡ ok p)
  pub unwindowed : k.reboot_window ≡ none → ¬ HasWindow config
  pub no_zero :
      (eqb_ℤ k.max_rebooting_nodes (pos 0) ≡ false)
      × (eqb_ℤ k.reconciliation_period (pos 0) ≡ false)
      × (eqb_ℤ k.leader_election_lease (pos 0) ≡ false)

-- What `checkConfig` refuses a nil client for.
present :
    {A : Type 0} (o : Option A) (e : Error) (rest : A → Result A) (a : A)
    → (elim o [ none ↦ err e | some x ↦ rest x ]) ≡ ok a
    → (x : A) × (o ≡ some x) × (rest x ≡ ok a)
present none e rest a h = cc
present (some x) e rest a h = (x, refl, h)

-- The test of `New` for a reboot window.
both_given :
    (start length : String)
    → ((not (start == "") && not (length == "")) ≡ true → (start ≢ "") × (length ≢ ""))
      × ((not (start == "") && not (length == "")) ≡ false → ¬ ((start ≢ "") × (length ≢ "")))
both_given start length = elim (Bool-cases (start == "")) [
  | inl e ↦ rw e (λ h. absurd (false≢true h), λ h (one, other). one ((eq_iff start "").0 e))
  | inr e ↦ elim (Bool-cases (length == "")) [
    | inl f ↦
        rw (e, f) (λ h. absurd (false≢true h), λ h (one, other). other ((eq_iff length "").0 f))
    | inr f ↦
        rw (e, f)
          (
            λ h. (
              λ x. false≢true (sym e ∙ (eq_iff start "").1 x),
              λ x. false≢true (sym f ∙ (eq_iff length "").1 x),
            ),
            λ h both. false≢true (sym h),
          )
  ]
]

given :
    (both : Bool) (parsed : Result Periodic) (o : Option Periodic)
    → (if both
        then (wrapping "parsing reboot window: %w" [] parsed >>= λ rw. ok (some rw))
        else ok none)
      ≡ ok o
    → ((p : Periodic) → o ≡ some p → (both ≡ true) × (parsed ≡ ok p)) × (o ≡ none → both ≡ false)
given true parsed o h =
    let (p, was, made) = calls_passed _ _ parsed _ _ h in
    let same : some p ≡ o = ok_injective _ _ made in
    (
      λ q e. (refl, was ∙ ap ok (some-injective p q (same ∙ e))),
      λ e. absurd (some-ne-none p (same ∙ e)),
    )
given false parsed o h =
    let same : none ≡ o = ok_injective _ _ h in
    (λ q e. absurd (some-ne-none q (sym e ∙ sym same)), λ _. refl)

pub or_default_ne_zero :
    (value default : ℤ)
    → eqb_ℤ default (pos 0) ≡ false
    → eqb_ℤ (or_default value default) (pos 0) ≡ false
or_default_ne_zero value default h = elim (Bool-cases (eqb_ℤ value (pos 0))) [
  | inl zero ↦ rw zero h
  | inr set ↦ rw set set
]

module _ {Client Lock : Type 0} (resource_lock_new : LockMaker Client Lock) (t : TextLib)
    (config : Config Client) where
  check_config-ok :
      (client : Client)
      → check_config config ≡ ok client
      → (config.client ≢ none)
        × ((config.namespace == "") ≡ false)
        × ((config.lock_id == "") ≡ false)
  unfolding check_config
  check_config-ok client h =
      let (x, has, h1) = present config.client _ _ client h in
      let (namespace, h2) = guard_passed (config.namespace == "") _ _ client h1 in
      let (lock_id, h3) = guard_passed (config.lock_id == "") _ _ client h2 in
      (λ e. some-ne-none x (sym has ∙ e), namespace, lock_id)

  make_reboot_window-ok :
      (o : Option Periodic)
      → make_reboot_window resource_lock_new t config ≡ ok o
      → ((p : Periodic)
          → o ≡ some p
          → HasWindow config
            × (parse_periodic t config.reboot_window_start config.reboot_window_length ≡ ok p))
        × (o ≡ none → ¬ HasWindow config)
  unfolding make_reboot_window
  make_reboot_window-ok o h =
      let (windowed, unwindowed) = given _ _ o h in
      let (holds, fails) = both_given config.reboot_window_start config.reboot_window_length in
      (λ p e. let (both, parsed) = windowed p e in (holds both, parsed), λ e. fails (unwindowed e))

  -- When `New` returns settings, the client is not nil, the namespace and the lock's identity are
  -- not empty, the settings have the annotations before and after a reboot and the namespace of the
  -- configuration and its numbers, with zeros replaced by one node, 30 seconds and 90 seconds, so
  -- that none is zero; and there is a reboot window exactly if its start and its length are both
  -- not empty: then it is the parsed one.
  pub new-Accepted :
      (k : Kontroller) (lock : Lock)
      → new resource_lock_new t config ≡ ok (k, lock)
      → Accepted t config k
  unfolding new
  new-Accepted k lock h =
      let (client, passed, h1) = calls_passed _ _ (check_config config) _ _ h in
      let (locked, made, h2) =
        calls_passed _ _ (new_resource_lock resource_lock_new config client) _ _ h1 in
      let (window, parsed, h3) =
        call_passed (make_reboot_window resource_lock_new t config) _ _ h2 in
      let (has_client, has_namespace, has_lock_id) = check_config-ok client passed in
      let (windowed, unwindowed) = make_reboot_window-ok window parsed in
      subst (Accepted t config)
        (ap (λ r. r.0) (ok_injective (configured config window, locked) (k, lock) h3))
        (record {
          has_client = has_client;
          has_namespace = has_namespace;
          has_lock_id = has_lock_id;
          before = refl;
          after = refl;
          same_namespace = refl;
          max = refl;
          reconciliation = refl;
          lease = refl;
          windowed = windowed;
          unwindowed = unwindowed;
          no_zero = (
            or_default_ne_zero config.max_rebooting_nodes _ refl,
            or_default_ne_zero config.reconciliation_period _ refl,
            or_default_ne_zero config.leader_election_lease _ refl,
          );
        })

  -- With a reboot window that `New` parsed, `insideRebootWindow` holds exactly when its second
  -- reading of the clock is before the end of the latest occurrence begun at its first.
  pub inside_reboot_window-new :
      (c : Clock) (steady : IsSteady c) (first second : c.Time) (later : 14 ≤ steady.day_of first)
      (k : Kontroller) (lock : Lock) (p : Periodic)
      → new resource_lock_new t config ≡ ok (k, lock)
      → k.reboot_window ≡ some p
      → (s : ℕ) × Occurs c steady p first s
        × (inside_reboot_window c k first second
            ≡ ltb (steady.instant second) (s + pos_part p.duration))
  unfolding inside_reboot_window
  inside_reboot_window-new c steady first second later k lock p h windowed =
      let (_, parsed) = (new-Accepted k lock h).windowed p windowed in
      let (s, o) = valid-Occurs c steady first later p (parse_periodic-IsValid t _ _ p parsed) in
      (s, o, rw (windowed, steady.before-eq, o.previous_end) refl)
