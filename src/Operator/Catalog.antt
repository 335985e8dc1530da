-- ===== src/Operator/Catalog.antt =====
-- An abstract view of the external workloads: the labels under each name, without the order of the
-- policies and without identities, and what each event does to it by itself.
pub mod View
pub mod Refinement
use kvm_service.Prelude.{
  String, List, [], ◌∷◌, Option, none, some, true, false, ◌&&◌, not, ◌≡◌, ◌≢◌, ◌⊎◌, GoMap, ◌==◌,
  string_eq, if◌then◌else◌,
}
use kvm_service.Types.Workloads.{
  ExternalWorkloadSecurityPolicy, K8sKubeArmorExternalWorkloadPolicyEvent,
}
use kvm_service.Operator.Events.{maps_equal}

abbrev pub Labels : Type 0
Labels = Option (GoMap String String)

abbrev pub Catalog : Type 0
Catalog = String → Option Labels

-- What the policies of a list say of a name: the first one counts.
unfoldable pub view : List ExternalWorkloadSecurityPolicy → Catalog
view [] n = none
view (p ∷ ps) n =
    let later = view ps n in
    if p.metadata.name == n then some p.metadata.node_selector.match_labels else later

-- A workload that exists is not added again, one that does not exist is neither modified nor
-- deleted, and one whose labels are not those of the event is not deleted.
abbrev pub once_added : Labels → Option Labels → Option Labels
once_added labels none = some labels
once_added labels (some old) = some old

abbrev pub once_modified : Labels → Option Labels → Option Labels
once_modified labels none = none
once_modified labels (some old) = some labels

abbrev pub once_deleted : Labels → Option Labels → Option Labels
once_deleted labels none = none
once_deleted labels (some old) = if maps_equal labels old then none else some old

-- What becomes of the object's own labels.
abbrev pub once_handled : K8sKubeArmorExternalWorkloadPolicyEvent → Option Labels → Option Labels
once_handled event held =
    let labels = event.object.metadata.labels in
    if not (event.object.status.status == "") && not (event.object.status.status == "OK")
    then held
    else if event.type == "ADDED"
    then once_added labels held
    else if event.type == "MODIFIED"
    then once_modified labels held
    else if event.type == "DELETED"
    then once_deleted labels held
    else held

unfoldable pub catalog_after : K8sKubeArmorExternalWorkloadPolicyEvent → Catalog → Catalog
catalog_after event c n = if event.object.metadata.name == n then once_handled event (c n) else c n

unfoldable pub replay : List K8sKubeArmorExternalWorkloadPolicyEvent → Catalog → Catalog
replay [] c = c
replay (event ∷ events) c = replay events (catalog_after event c)

-- Kubernetes names objects uniquely: what is added has a nonempty name and did not exist, or is
-- added once more with the labels that it has.
abbrev pub IsPossible : K8sKubeArmorExternalWorkloadPolicyEvent → Catalog → Type 0
IsPossible event c =
    event.type ≡ "ADDED"
    → ((event.object.metadata.name ≢ "") × (c event.object.metadata.name ≡ none))
      ⊎ ((old : Labels) × (c event.object.metadata.name ≡ some old)
          × (maps_equal old event.object.metadata.labels ≡ true))

-- Each event of a stream is possible after the ones before it.
abbrev pub IsStream : List K8sKubeArmorExternalWorkloadPolicyEvent → Catalog → Type 0
IsStream [] c = Unit
IsStream (event ∷ events) c = IsPossible event c × IsStream events (catalog_after event c)
