-- ===== src/Common/Network.antt =====
-- GetExternalInterface, GetIPAddr, GetExternalIPAddr, GetEtcdEndPoint and GetExternalIP. What the
-- operating system, the command `ip route` and the Kubernetes client answer are arguments.
pub mod Polling
use kvm_service.Prelude.{
  ℕ, zero, suc, String, List, [], ◌∷◌, Option, none, some, Bool, true, false, ◌<>◌, ◌==◌, string_eq,
  if◌then◌else◌,
}
use kvm_service.Go.Outcome.{Outcome, Exit, done, exit, panicked, running, Result, ok, err}
use kvm_service.Go.Strings.{split, first_piece}

-- The word behind the first `dev`; none is the panic where nothing stands behind it.
unfoldable pub word_after_dev : List String → Option String
word_after_dev [] = some ""
word_after_dev (word ∷ []) = if word == "dev" then none else some ""
word_after_dev (word ∷ next ∷ words) =
    let later = word_after_dev (next ∷ words) in if word == "dev" then some next else later

-- The argument is the output of `ip route`, empty on an error.
unfoldable pub get_external_interface : String → Option String
unfolding word_after_dev
get_external_interface route = word_after_dev (split b' ' (first_piece (split b'\n' route)))

-- An interface of the host with the texts of its addresses, which may fail to be read.
pub record Interface : Type 0 where
  pub name : String
  pub addrs : Result (List String)

-- The address of the first interface of the name. None is the panic where it has no address.
unfoldable pub ip_addr_among : List Interface → String → Option String
ip_addr_among [] ifname = some ""
ip_addr_among (iface ∷ interfaces) ifname =
    let later = ip_addr_among interfaces ifname in
    if iface.name == ifname
    then elim iface.addrs [
      | ok [] ↦ none
      | ok (addr ∷ addrs) ↦ some (first_piece (split b'/' addr))
      | err m ↦ some ""
    ]
    else later

unfoldable pub get_ip_addr : Result (List Interface) → String → Option String
unfolding ip_addr_among
get_ip_addr (ok interfaces) ifname = ip_addr_among interfaces ifname
get_ip_addr (err m) ifname = some ""

unfoldable pub get_external_ip_addr : String → Result (List Interface) → Option String
unfolding get_external_interface get_ip_addr
get_external_ip_addr route interfaces = elim (get_external_interface route) [
  | none ↦ none
  | some iface ↦ get_ip_addr interfaces iface
]

-- The client of Kubernetes, where the configuration is read and the client is made; an error of either
-- is only printed, and the nil that comes with it is dereferenced below. The second argument are the
-- addresses `svc.Spec.ClusterIP` of the services that the client lists. None is the panic.
unfoldable pub get_etcd_end_point : Result (Unit {0}) → Result (List String) → Option String
get_etcd_end_point (err m) services = none
get_etcd_end_point (ok clientset) (err m) = some ""
get_etcd_end_point (ok clientset) (ok []) = some ("http://" <> "" <> ":2379")
get_etcd_end_point (ok clientset) (ok (cluster_ip ∷ items)) =
    some ("http://" <> cluster_ip <> ":2379")

-- The first ingress address of a service; none has no ingress.
abbrev first_ingress : List String → String → String
first_ingress [] external_ip = external_ip
first_ingress (ip ∷ ingress) external_ip = ip

-- The loop of GetExternalIP: answer n is the n-th Get of the service. It goes on while the address is
-- empty and ends at an error; none has not ended within the rounds.
unfoldable pub external_ip_loop : (ℕ → Result (List String)) → ℕ → ℕ → String → Option String
external_ip_loop answer zero n external_ip = if external_ip == "" then none else some external_ip
external_ip_loop answer (suc rounds) n external_ip = elim (external_ip == "") [
  | false ↦ some external_ip
  | true ↦ elim (answer n) [
    | err m ↦ some external_ip
    | ok ingress ↦ external_ip_loop answer rounds (suc n) (first_ingress ingress external_ip)
  ]
]

-- Without a client the first Get, or the making of the client from a nil configuration, panics. The
-- error that is returned is the one of making the client, which is nil where the loop runs: the error in
-- the loop is another variable. A loop that has not ended within the rounds is running.
unfoldable pub get_external_ip :
    Result (Unit {0}) → (ℕ → Result (List String)) → ℕ → Outcome (Unit {0}) (String × Option String)
unfolding external_ip_loop
get_external_ip (err m) answer rounds = exit panicked tt
get_external_ip (ok clientset) answer rounds = elim (external_ip_loop answer rounds zero "") [
  | none ↦ exit running tt
  | some external_ip ↦ done (external_ip, none) tt
]
