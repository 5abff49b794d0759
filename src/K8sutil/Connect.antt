-- ===== src/K8sutil/Connect.antt =====
-- pkg/k8sutil/client.go: `GetClient` and `getClientConfig`.
use flatcar_linux_update_ope.Prelude.{String, ◌==◌, [], if◌then◌else◌}
use flatcar_linux_update_ope.Exec.{Exec, ◌>>=◌, wrapping}

-- What client-go offers to make a client.
pub record ClientGo (W Client : Type 0) : Type 1 where
  pub Config : Type 0
  -- `clientcmd.BuildConfigFromFlags("", path)`
  pub build_config_from_flags : String → Exec W Config
  -- `rest.InClusterConfig`
  pub in_cluster_config : Exec W Config
  -- `kubernetes.NewForConfig`
  pub new_for_config : Config → Exec W Client

module _ {W Client : Type 0} (g : ClientGo W Client) where
  abbrev pub get_client_config : String → Exec W g.Config
  get_client_config path =
      if path == "" then g.in_cluster_config else g.build_config_from_flags path

  unfoldable pub get_client : String → Exec W Client
  get_client path = do
    conf ← wrapping "getting Kubernetes client config: %w" [] (get_client_config path)
    g.new_for_config conf
