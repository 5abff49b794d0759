-- ===== src/K8sutil.antt =====
-- pkg/k8sutil: the helpers for nodes that the agent and the operator share.
pub mod Metadata
pub mod Selector
pub mod Connect
