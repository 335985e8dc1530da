-- ===== src/Types/Meta.antt =====
-- The two fields of Kubernetes' `metav1.ObjectMeta` that the daemons read.
use kvm_service.Prelude.{String, Option, GoMap}

pub record ObjectMeta : Type 0 where
  pub name : String
  pub labels : Option (GoMap String String)
