-- ===== src/Common/Environment.antt =====
-- IsK8sLocal, IsInK8sCluster and IsK8sEnv, over what the environment and the file system hold.
use kvm_service.Prelude.{String, Option, none, some, Bool, true, false, ◌<>◌}

pub record Environment : Type 0 where
  -- `os.LookupEnv`
  pub lookup_env : String → Option String
  -- `os.Stat(filepath.Clean(path))` succeeds
  pub exists : String → Bool

-- `os.Getenv`: empty where the variable is not set.
unfoldable pub getenv : Environment → String → String
getenv env key = elim (env.lookup_env key) [ none ↦ "" | some v ↦ v ]

unfoldable pub is_k8s_local : Environment → Bool
unfolding getenv
is_k8s_local env = env.exists (getenv env "HOME" <> "/.kube")

unfoldable pub is_in_k8s_cluster : Environment → Bool
is_in_k8s_cluster env = elim (env.lookup_env "KUBERNETES_PORT") [ none ↦ false | some v ↦ true ]

unfoldable pub is_k8s_env : Environment → Bool
is_k8s_env env = elim (is_k8s_local env) [
  | true ↦ true
  | false ↦ elim (is_in_k8s_cluster env) [ true ↦ true | false ↦ false ]
]
