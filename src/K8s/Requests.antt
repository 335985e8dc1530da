-- ===== src/K8s/Requests.antt =====
-- Which requests carry the token, and the requests of the check for a resource.
pub mod Served
use mathlib.Core.Option.{some_inj}
use kvm_service.Prelude.{
  or_false, or_true, subst, ◌||◌, String, [], some, Bool, true, false, ◌≡◌, ◌↔◌, refl, sym, ◌∙◌,
  ◌⊎◌, inl, inr, not, ◌<>◌, string_eq, if◌then◌else◌, Bool-cases, Option-cases, starts_with,
  starts_with_long,
}
use kvm_service.Go.Outcome.{Result-cases, ok}
use kvm_service.Common.Environment.{
  Environment, getenv, is_k8s_local, is_k8s_env, is_in_k8s_cluster,
}
use kvm_service.K8s.Handler.{
  K8sHandler, HttpRequest, Platform, kubeconfig, token_file, ApiGroup, host_and_port, request_of,
  do_request, group_in, resource_in, check_custom_resource_definition, init_k8s_client,
  init_incluster_api_client, init_local_api_client,
}

-- A request that shows nothing to a listener, or that is encrypted.
abbrev pub IsDiscreet : HttpRequest → Type 0
IsDiscreet r = (r.headers ≡ []) ⊎ (starts_with r.url "https://" ≡ true)

-- The handler has a client when it had one or the answer is true.
abbrev Fits : K8sHandler → Bool × K8sHandler → Type 0
Fits kh (answer, kh') = kh'.k8s_client ≡ (kh.k8s_client || answer)

Fits-if :
    (kh : K8sHandler) (b : Bool) (r r' : Bool × K8sHandler)
    → (b ≡ true → Fits kh r)
    → (b ≡ false → Fits kh r')
    → Fits kh (if b then r else r')
Fits-if kh true r r' f g = f refl
Fits-if kh false r r' f g = g refl

module _ {H R : Type 0} (p : Platform H R) (env : Environment) where
  -- A request to the API server carries no header, and so no token, unless its URL begins with
  -- https.
  pub request_of-IsDiscreet :
      (kh : K8sHandler) (cmd body path : String) → IsDiscreet (request_of p env kh cmd body path)
  unfolding request_of
  request_of-IsDiscreet kh cmd body path = elim (Bool-cases (is_in_k8s_cluster env)) [
    | inl cluster ↦ inr (rw cluster (starts_with_long "https://" (host_and_port kh <> path)))
    | inr outside ↦ inl (rw outside refl)
  ]

  -- The two requests, and what the readers of the answers say.
  pub record Passes (kh : K8sHandler) (name : String) (h : H) : Type 0 where
    pub in_k8s : is_k8s_env env ≡ true
    pub group : ApiGroup
    pub listed : group_in p env (do_request p env kh "GET" (ok "null") "/apis" h).0 ≡ some group
    pub served :
        resource_in p env name
          (do_request p env kh "GET"
            (ok "null")
            ("/apis/" <> group.group_version)
            (do_request p env kh "GET" (ok "null") "/apis" h).1).0
        ≡ true

  -- The check as its two requests.
  pub check_custom_resource_definition-Passes :
      (kh : K8sHandler) (name : String) (h : H)
      → ((check_custom_resource_definition p env kh name h).0 ≡ true) ↔ Passes kh name h
  unfolding check_custom_resource_definition
  check_custom_resource_definition-Passes kh name h = elim (Bool-cases (is_k8s_env env)) [
    | inr outside ↦
        rw (outside, check_custom_resource_definition) (λ e. cc, λ s. let q = s.in_k8s in cc)
    | inl inside ↦
        elim (Option-cases (group_in p env (do_request p env kh "GET" (ok "null") "/apis" h).0)) [
          | inl unlisted ↦
              rw (inside, unlisted, check_custom_resource_definition)
                (λ e. cc, λ s. let q = s.listed in cc)
          | inr (g, listed) ↦
              rw (inside, listed, check_custom_resource_definition)
                (
                  λ e. record { in_k8s = inside; group = g; listed = listed; served = e },
                  λ s.
                      let q : s.group ≡ g = some_inj.0 (sym s.listed ∙ listed) in
                      subst
                        (λ (x : ApiGroup).
                          resource_in p env name
                            (do_request p env kh "GET" (ok "null") ("/apis/" <> x.group_version)
                              (do_request p env kh "GET" (ok "null") "/apis" h).1).0
                          ≡ true)
                        q s.served,
                )
        ]
  ]

  init_local-client :
      (kh : K8sHandler)
      → (init_local_api_client p env kh).1.k8s_client
        ≡ (kh.k8s_client || (init_local_api_client p env kh).0)
  unfolding init_local_api_client
  init_local-client kh = elim (Result-cases (p.build_config (kubeconfig (getenv env "HOME")))) [
    | inr (m, e) ↦ rw (e, init_local_api_client) (sym (or_false kh.k8s_client))
    | inl (config, e) ↦ elim (Result-cases (p.new_for_config config)) [
      | inr (m, e') ↦ rw (e, e', init_local_api_client) (sym (or_false kh.k8s_client))
      | inl (u, e') ↦ rw (e, e', init_local_api_client) (sym (or_true kh.k8s_client))
    ]
  ]

  init_incluster-client :
      (kh : K8sHandler)
      → (init_incluster_api_client p env kh).1.k8s_client
        ≡ (kh.k8s_client || (init_incluster_api_client p env kh).0)
  unfolding init_incluster_api_client
  init_incluster-client kh = elim (Result-cases (p.read_file token_file)) [
    | inr (m, e) ↦ rw (e, init_incluster_api_client) (sym (or_false kh.k8s_client))
    | inl (token, e) ↦
        elim (Result-cases (p.new_for_token ("https://" <> host_and_port kh) token)) [
          | inr (m, e') ↦ rw (e, e', init_incluster_api_client) (sym (or_false kh.k8s_client))
          | inl (u, e') ↦ rw (e, e', init_incluster_api_client) (sym (or_true kh.k8s_client))
        ]
  ]

  -- The handler has a client after InitK8sClient exactly when it had one before or InitK8sClient
  -- says that it succeeded.
  pub init_k8s_client-client :
      (kh : K8sHandler)
      → (init_k8s_client p env kh).1.k8s_client ≡ (kh.k8s_client || (init_k8s_client p env kh).0)
  unfolding init_k8s_client
  init_k8s_client-client kh =
      let refused : Fits kh (false, kh) = sym (or_false kh.k8s_client) in
      Fits-if kh (not (is_k8s_env env)) _ _ (λ _. refused)
        (λ _.
          Fits-if kh kh.k8s_client _ _ (λ held. held ∙ sym (or_true kh.k8s_client))
            (λ _.
              Fits-if kh (is_in_k8s_cluster env) _ _ (λ _. init_incluster-client kh)
                (λ _.
                  Fits-if kh (is_k8s_local env) _ _ (λ _. init_local-client kh) (λ _. refused))))
