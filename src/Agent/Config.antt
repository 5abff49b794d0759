-- ===== src/Agent/Config.antt =====
-- pkg/agent/agent.go: `Config`, `New` and `klocksmith`.
use flatcar_linux_update_ope.Prelude.{
  ◌*◌, ◌≡◌, refl, subst, String, ◌==◌, Bool, false, Option, none, some, [], if◌then◌else◌,
}
use flatcar_linux_update_ope.Prelude.Int.{ℤ, pos, eqb_ℤ}
use flatcar_linux_update_ope.Exec.{message}
use flatcar_linux_update_ope.Result.{Result, ok, err, guard_passed, ok_injective}
use flatcar_linux_update_ope.Operator.Config.{or_default}
use flatcar_linux_update_ope.Operator.Config.Laws.{or_default_ne_zero}

-- The interfaces of the configuration may be nil.
pub record Config (Clientset Receiver Rebooter : Type 0) : Type 0 where
  pub node_name : String
  pub pod_deletion_grace_period : ℤ
  pub force_node_drain : Bool
  pub clientset : Option Clientset
  pub status_receiver : Option Receiver
  pub rebooter : Option Rebooter
  pub host_files_prefix : String
  pub poll_interval : ℤ
  pub max_operator_response_time : ℤ

pub record Klocksmith (Clientset Receiver Rebooter : Type 0) : Type 0 where
  pub node_name : String
  pub clientset : Clientset
  pub ue : Receiver
  pub lc : Rebooter
  pub reap_timeout : ℤ
  pub force_node_drain : Bool
  pub host_files_prefix : String
  pub poll_interval : ℤ
  pub max_operator_response_time : ℤ

abbrev pub default_poll_interval : ℤ
default_poll_interval = pos (10 * 1000000000)

abbrev pub default_max_operator_response_time : ℤ
default_max_operator_response_time = pos (24 * 3600 * 1000000000)

-- `if v == nil { return nil, fmt.Errorf(format) }`
abbrev pub not_nil : {A B : Type 0} → Option A → String → (A → Result B) → Result B
not_nil none format rest = err (message format [])
not_nil (some a) format rest = rest a

not_nil_passed :
    {A B : Type 0} (o : Option A) (format : String) (rest : A → Result B) (b : B)
    → not_nil o format rest ≡ ok b
    → (a : A) × (o ≡ some a) × (rest a ≡ ok b)
not_nil_passed none format rest b h = cc
not_nil_passed (some a) format rest b h = (a, refl, h)

module _ {Clientset Receiver Rebooter : Type 0} where
  -- The literal that `New` returns.
  abbrev pub assembled :
      Config Clientset Receiver Rebooter
      → Clientset
      → Receiver
      → Rebooter
      → Klocksmith Clientset Receiver Rebooter
  assembled config clientset receiver rebooter = record {
    node_name = config.node_name;
    clientset = clientset;
    ue = receiver;
    lc = rebooter;
    reap_timeout = config.pod_deletion_grace_period;
    force_node_drain = config.force_node_drain;
    host_files_prefix = config.host_files_prefix;
    poll_interval = or_default config.poll_interval default_poll_interval;
    max_operator_response_time =
        or_default config.max_operator_response_time default_max_operator_response_time;
  }

  unfoldable pub new :
      Config Clientset Receiver Rebooter → Result (Klocksmith Clientset Receiver Rebooter)
  new config = not_nil config.clientset "no clientset configured" λ clientset.
      not_nil config.status_receiver "no status receiver configured" λ receiver.
        not_nil config.rebooter "no rebooter given" λ rebooter.
          if config.node_name == ""
          then err (message "node name can't be empty" [])
          else ok (assembled config clientset receiver rebooter)

  -- What `New` promises of the agent that it returns.
  pub record Assembled (config : Config Clientset Receiver Rebooter)
      (k : Klocksmith Clientset Receiver Rebooter) : Type 0 where
    pub clientset : config.clientset ≡ some k.clientset
    pub receiver : config.status_receiver ≡ some k.ue
    pub rebooter : config.rebooter ≡ some k.lc
    pub named : (k.node_name == "") ≡ false
    pub whole : k ≡ assembled config k.clientset k.ue k.lc
    pub polls : eqb_ℤ k.poll_interval (pos 0) ≡ false
    pub waits : eqb_ℤ k.max_operator_response_time (pos 0) ≡ false

  -- When `New` of the agent returns, the clientset, the receiver and the rebooter of the
  -- configuration were not nil and are the agent's, its node has a name, and the poll interval and
  -- the response time are not zero: a zero was replaced by the default.
  pub new-Assembled :
      (config : Config Clientset Receiver Rebooter) (k : Klocksmith Clientset Receiver Rebooter)
      → new config ≡ ok k
      → Assembled config k
  unfolding new
  new-Assembled config k h =
      let (clientset, has_clientset, h1) = not_nil_passed config.clientset _ _ k h in
      let (receiver, has_receiver, h2) = not_nil_passed config.status_receiver _ _ k h1 in
      let (rebooter, has_rebooter, h3) = not_nil_passed config.rebooter _ _ k h2 in
      let (named, h4) = guard_passed (config.node_name == "") _ _ k h3 in
      subst (Assembled config) (ok_injective _ k h4) (record {
        clientset = has_clientset;
        receiver = has_receiver;
        rebooter = has_rebooter;
        named = named;
        whole = refl;
        polls = or_default_ne_zero config.poll_interval _ refl;
        waits = or_default_ne_zero config.max_operator_response_time _ refl;
      })
