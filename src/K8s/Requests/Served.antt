-- ===== src/K8s/Requests/Served.antt =====
-- When a resource counts as defined (CheckCustomResourceDefinition of
-- src/operator/core/k8sHandler.go), by what the API server answers.
use kvm_service.Prelude.{
  String, List, [], ◌∷◌, ◌++◌, none, some, true, false, ◌≡◌, ◌≢◌, ◌↔◌, refl, sym, ◌∙◌, ap, inl, inr,
  ◌<>◌, ◌==◌, string_eq, Option-cases, ==_cases, ==_refl, ==_of_ne, All, contains, subst, or_true,
}
use mathlib.Core.Option.{some_inj}
use kvm_service.Go.Outcome.{Result, Result-cases, ok, err}
use kvm_service.Common.Environment.{Environment, is_k8s_env}
use kvm_service.K8s.Handler.{
  K8sHandler, Platform, ApiGroup, request_of, do_request, find_group, group_in, resource_in,
  check_custom_resource_definition,
}
use kvm_service.K8s.Requests.{Passes, check_custom_resource_definition-Passes}

pair-of : {A B : Type 0} (x : A × B) (a : A) (b : B) → x.0 ≡ a → x.1 ≡ b → x ≡ (a, b)
pair-of x a b e f = rw (← e, ← f) refl

-- The first of the groups with the name of KubeArmor.
pub record IsFirst (groups : List ApiGroup) (group : ApiGroup) : Type 0 where
  pub before : List ApiGroup
  pub behind : List ApiGroup
  pub split : groups ≡ before ++ group ∷ behind
  pub named : group.name ≡ "security.kubearmor.com"
  pub first : All (λ (g : ApiGroup). g.name ≢ "security.kubearmor.com") before

find_group-IsFirst :
    (groups : List ApiGroup) (group : ApiGroup)
    → find_group groups ≡ some group
    → IsFirst groups group
unfolding find_group
find_group-IsFirst [] group h = cc
find_group-IsFirst (g ∷ groups) group h = elim (==_cases g.name "security.kubearmor.com") [
  | inl same ↦
      let e : g ≡ group = some_inj.0 (sym (rw (same, find_group) refl) ∙ h) in
      record {
        before = [];
        behind = groups;
        split = ap (λ x. x ∷ groups) e;
        named = subst (λ (x : ApiGroup). x.name ≡ "security.kubearmor.com") e same;
        first = tt;
      }
  | inr other ↦
      let f = find_group-IsFirst groups group (sym (rw (==_of_ne _ _ other) refl) ∙ h) in
      record {
        before = g ∷ f.before;
        behind = f.behind;
        split = ap (λ l. g ∷ l) f.split;
        named = f.named;
        first = (other, f.first);
      }
]

find_group-behind :
    (before behind : List ApiGroup) (group : ApiGroup)
    → group.name ≡ "security.kubearmor.com"
    → All (λ (g : ApiGroup). g.name ≢ "security.kubearmor.com") before
    → find_group (before ++ group ∷ behind) ≡ some group
unfolding find_group
find_group-behind [] behind group named first = rw named refl
find_group-behind (g ∷ before) behind group named (other, first) =
    rw (==_of_ne _ _ other) (find_group-behind before behind group named first)

IsFirst-find_group :
    (groups : List ApiGroup) (group : ApiGroup)
    → IsFirst groups group
    → find_group groups ≡ some group
IsFirst-find_group groups group f =
    ap find_group f.split ∙ find_group-behind f.before f.behind group f.named f.first

-- The name stands among the names.
pub record IsAmong (name : String) (names : List String) : Type 0 where
  pub before : List String
  pub behind : List String
  pub split : names ≡ before ++ name ∷ behind

contains-IsAmong :
    (name : String) (names : List String) → contains names name ≡ true → IsAmong name names
unfolding contains
contains-IsAmong name [] h = cc
contains-IsAmong name (n ∷ names) h = elim (==_cases n name) [
  | inl same ↦ record { before = []; behind = names; split = ap (λ x. x ∷ names) same }
  | inr other ↦
      let a = contains-IsAmong name names (rw (==_of_ne n name other) at h) in
      record { before = n ∷ a.before; behind = a.behind; split = ap (λ l. n ∷ l) a.split }
]

contains-behind :
    (before behind : List String) (name : String) → contains (before ++ name ∷ behind) name ≡ true
unfolding contains
contains-behind [] behind name = rw (==_refl name) refl
contains-behind (n ∷ before) behind name =
    rw (contains-behind before behind name) (or_true (n == name))

module _ {H R : Type 0} (p : Platform H R) (env : Environment) (kh : K8sHandler) where
  -- A GET of the path is made, and answered by a body that can be read.
  pub record IsAnswered (path : String) (h : H) (body : String) (h' : H) : Type 0 where
    pub made : p.request_error "GET" (request_of p env kh "GET" "null" path).url ≡ none
    pub answer : p.perform (request_of p env kh "GET" "null" path) h ≡ (ok (ok body), h')

  IsAnswered-do_request :
      (path : String) (h : H) (body : String) (h' : H)
      → IsAnswered path h body h'
      → do_request p env kh "GET" (ok "null") path h ≡ (ok body, h')
  unfolding do_request
  IsAnswered-do_request path h body h' a =
      rw (a.made, ap (λ x. x.0) a.answer, do_request)
        (ap (λ (x : Result (Result String) × H). (ok body, x.1)) a.answer)

  do_request-IsAnswered :
      (path : String) (h : H) (body : String)
      → (do_request p env kh "GET" (ok "null") path h).0 ≡ ok body
      → IsAnswered path h body (do_request p env kh "GET" (ok "null") path h).1
  unfolding do_request
  do_request-IsAnswered path h body e =
      let request = request_of p env kh "GET" "null" path in
      elim (Option-cases (p.request_error "GET" request.url)) [
        | inr (m, bad) ↦ let q : err m ≡ ok body = rw (bad, do_request) at e in cc
        | inl fine ↦ elim (Result-cases (p.perform request h).0) [
          | inr (m, failed) ↦ let q : err m ≡ ok body = rw (fine, failed, do_request) at e in cc
          | inl (content, answered) ↦
              let q : content ≡ ok body = rw (fine, answered, do_request) at e in
              let left : (p.perform request h).1
                  ≡ (do_request p env kh "GET" (ok "null") path h).1 =
                rw (fine, answered, do_request) refl in
              record { made = fine; answer = pair-of _ _ _ (answered ∙ ap ok q) left }
        ]
      ]

  -- The process runs in or beside a cluster; the API server lists the group of KubeArmor, and under the
  -- version that the first such group prefers, asked for next, the resource.
  pub record IsServed (name : String) (h : H) : Type 0 where
    pub in_k8s : is_k8s_env env ≡ true
    pub body : String
    pub between : H
    pub asked : IsAnswered "/apis" h body between
    pub groups : List ApiGroup
    pub read : p.api_groups body ≡ ok groups
    pub group : ApiGroup
    pub listed : IsFirst groups group
    pub body' : String
    pub end : H
    pub asked' : IsAnswered ("/apis/" <> group.group_version) between body' end
    pub resources : List String
    pub read' : p.api_resources body' ≡ ok resources
    pub served : IsAmong name resources

  -- What the readers of the answers say, by the answers.
  group_in-listed :
      (r : Result String) (group : ApiGroup)
      → group_in p env r ≡ some group
      → (body : String) × (groups : List ApiGroup) × (r ≡ ok body)
        × (p.api_groups body ≡ ok groups)
        × IsFirst groups group
  unfolding group_in
  group_in-listed (err m) group h = cc
  group_in-listed (ok body) group h = elim (Result-cases (p.api_groups body)) [
    | inr (m, bad) ↦ let q : none ≡ some group = rw (bad, group_in) at h in cc
    | inl (groups, read) ↦
        (body, groups, refl, read, find_group-IsFirst groups group (rw (read, group_in) at h))
  ]

  resource_in-served :
      (name : String) (r : Result String)
      → resource_in p env name r ≡ true
      → (body : String) × (resources : List String) × (r ≡ ok body)
        × (p.api_resources body ≡ ok resources)
        × IsAmong name resources
  unfolding resource_in
  resource_in-served name (err m) h = cc
  resource_in-served name (ok body) h = elim (Result-cases (p.api_resources body)) [
    | inr (m, bad) ↦ let q : false ≡ true = rw (bad, resource_in) at h in cc
    | inl (resources, read) ↦
        (body, resources, refl, read, contains-IsAmong name resources (rw (read, resource_in) at h))
  ]

  Passes-IsServed : (name : String) (h : H) → Passes p env kh name h → IsServed name h
  Passes-IsServed name h s =
      let (body, groups, answered, read, listed) = group_in-listed _ s.group s.listed in
      let (body', resources, answered', read', served) = resource_in-served name _ s.served in
      record {
        in_k8s = s.in_k8s;
        body = body;
        between = _;
        asked = do_request-IsAnswered "/apis" h body answered;
        groups = groups;
        read = read;
        group = s.group;
        listed = listed;
        body' = body';
        end = _;
        asked' = do_request-IsAnswered ("/apis/" <> s.group.group_version) _ body' answered';
        resources = resources;
        read' = read';
        served = served;
      }

  IsServed-Passes : (name : String) (h : H) → IsServed name h → Passes p env kh name h
  unfolding group_in resource_in
  IsServed-Passes name h s =
      let first = IsAnswered-do_request "/apis" h s.body s.between s.asked in
      let second =
        IsAnswered-do_request ("/apis/" <> s.group.group_version) s.between s.body' s.end
          s.asked' in
      record {
        in_k8s = s.in_k8s;
        group = s.group;
        listed = rw (first, s.read, group_in) (IsFirst-find_group s.groups s.group s.listed);
        served =
            rw (first, second, s.read', resource_in)
              (ap (λ l. contains l name) s.served.split
                ∙ contains-behind s.served.before s.served.behind name);
      }

  -- A resource counts as defined exactly when the process runs in or beside a cluster, the API
  -- server answers a GET of /apis by groups that can be read, the first of them named
  -- security.kubearmor.com prefers some version, and to a GET of that version, made next, the
  -- server answers by resources that can be read and among which the name stands.
  pub check_custom_resource_definition_iff :
      (name : String) (h : H)
      → ((check_custom_resource_definition p env kh name h).0 ≡ true) ↔ IsServed name h
  check_custom_resource_definition_iff name h =
      let (to, from) = check_custom_resource_definition-Passes p env kh name h in
      (λ e. Passes-IsServed name h (to e), λ s. from (IsServed-Passes name h s))
