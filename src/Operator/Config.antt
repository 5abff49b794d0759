-- ===== src/Operator/Config.antt =====
-- pkg/operator/operator.go: `Config`, `checkConfig`, `newResourceLock`, `New` and `Kontroller`.
pub mod Laws
use flatcar_linux_update_ope.Prelude.{
  ℕ, ◌*◌, String, ◌==◌, Bool, not, ◌&&◌, Option, none, some, List, [], if◌then◌else◌,
}
use flatcar_linux_update_ope.Prelude.Int.{ℤ, pos, eqb_ℤ}
use flatcar_linux_update_ope.Exec.{message}
use flatcar_linux_update_ope.Result.{Result, ok, err, ◌>>=◌, ◌>>◌, wrapping}
use flatcar_linux_update_ope.Clock.{TextLib}
use flatcar_linux_update_ope.Periodic.{Periodic}
use flatcar_linux_update_ope.Periodic.Parse.{parse_periodic}

abbrev pub default_max_rebooting_nodes : ℤ
default_max_rebooting_nodes = pos 1

-- The value of `resourcelock.ConfigMapsLeasesResourceLock`.
abbrev pub default_lock_type : String
default_lock_type = "configmapsleases"

abbrev pub leader_election_resource_name : String
leader_election_resource_name = "flatcar-linux-update-operator-lock"

abbrev second : ℕ
second = 1000000000

abbrev pub default_leader_election_lease : ℤ
default_leader_election_lease = pos (90 * second)

abbrev pub default_reconciliation_period : ℤ
default_reconciliation_period = pos (30 * second)

-- `client` is nil or a `kubernetes.Interface`.
pub record Config (Client : Type 0) : Type 0 where
  pub client : Option Client
  pub before_reboot_annotations : List String
  pub after_reboot_annotations : List String
  pub reboot_window_start : String
  pub reboot_window_length : String
  pub namespace : String
  pub lock_id : String
  pub lock_type : String
  pub reconciliation_period : ℤ
  pub leader_election_lease : ℤ
  pub max_rebooting_nodes : ℤ

-- The settings of a `Kontroller`. Its handles, the client and the resource lock, stand beside.
pub record Kontroller : Type 0 where
  pub before_reboot_annotations : List String
  pub after_reboot_annotations : List String
  pub namespace : String
  pub reboot_window : Option Periodic
  pub max_rebooting_nodes : ℤ
  pub reconciliation_period : ℤ
  pub leader_election_lease : ℤ

unfoldable pub check_config : {Client : Type 0} → Config Client → Result Client
check_config config = elim config.client [
  | none ↦ err (message "kubernetes client must not be nil" [])
  | some client ↦
      if config.namespace == ""
      then err (message "namespace must not be empty" [])
      else if config.lock_id == ""
      then err (message "lockID must not be empty" [])
      else ok client
]

-- `resourcelock.New`: the type, the namespace and the name of the lock, the client for its objects
-- and events, and the identity.
abbrev pub LockMaker : Type 0 → Type 0 → Type 0
LockMaker Client Lock = String → String → String → Client → String → Result Lock

abbrev pub or_default : ℤ → ℤ → ℤ
or_default value default = if eqb_ℤ value (pos 0) then default else value

-- The literal that `New` returns.
abbrev pub configured : {Client : Type 0} → Config Client → Option Periodic → Kontroller
configured config window = record {
  before_reboot_annotations = config.before_reboot_annotations;
  after_reboot_annotations = config.after_reboot_annotations;
  namespace = config.namespace;
  reboot_window = window;
  max_rebooting_nodes = or_default config.max_rebooting_nodes default_max_rebooting_nodes;
  reconciliation_period = or_default config.reconciliation_period default_reconciliation_period;
  leader_election_lease = or_default config.leader_election_lease default_leader_election_lease;
}

module _ {Client Lock : Type 0} (resource_lock_new : LockMaker Client Lock) where
  unfoldable pub new_resource_lock : Config Client → Client → Result Lock
  new_resource_lock config client =
      resource_lock_new (if config.lock_type == "" then default_lock_type else config.lock_type)
        config.namespace leader_election_resource_name client config.lock_id

  unfoldable pub make_reboot_window : TextLib → Config Client → Result (Option Periodic)
  make_reboot_window t config =
      if not (config.reboot_window_start == "") && not (config.reboot_window_length == "")
      then (do
        rw ←
            wrapping "parsing reboot window: %w" []
              (parse_periodic t config.reboot_window_start config.reboot_window_length)
        ok (some rw))
      else ok none

  -- `New`, with the resource lock beside the settings
  unfoldable pub new : TextLib → Config Client → Result (Kontroller × Lock)
  new t config = do
    client ← wrapping "check configuration: %w" [] (check_config config)
    resource_lock ← wrapping "creating new resource lock: %w" [] (new_resource_lock config client)
    window ← make_reboot_window t config
    ok (configured config window, resource_lock)
