-- ===== src/Operator/Labels.antt =====
-- The label maps of the operator (src/operator/core/crdHandler.go).
pub mod Published
pub mod Removal
pub mod Frame
use mathlib.Core.Option.{get_or as value_or}
use kvm_service.Prelude.{
  ℕ, zero, ◌+◌, String, List, [], ◌∷◌, ◌++◌, Option, none, some, Bool, true, false, GoMap, lookup,
  insert, delete, ◌<>◌, ◌==◌, nat_eq, string_eq, if◌then◌else◌, keys,
}
use kvm_service.Constants.{
  kvm_opr_identity_to_ewname, kvm_opr_ewname_to_identity, kvm_opr_identity_to_label,
  kvm_opr_label_to_identities,
}
use kvm_service.Go.Outcome.{Outcome, Prog, done, exit, panicked, pure, modify, ◌>>=◌, ◌>>◌}
use kvm_service.Go.Strconv.{ℤ, pos, negsuc, format_uint}
use kvm_service.Go.Slice.{Window, remove_identity}
use kvm_service.Go.Json.{marshal_ids}
use kvm_service.Etcd.Driver.{Driver}
use kvm_service.Operator.State.{Operator, put_or_fatal, delete_or_fatal}

find_from : ℕ → List ℕ → ℕ → ℤ × Bool
find_from i [] identity = (negsuc 0, false)
find_from i (item ∷ items) identity =
    let later = find_from (i + 1) items identity in
    if item == identity then (pos i, true) else later

unfoldable pub find : List ℕ → ℕ → ℤ × Bool
unfolding find_from
find identities identity = find_from 0 identities identity

-- The loop of convertLabelsToStr over the entries in the order of this run; the last one stays.
convert_from : String → GoMap String String → String
convert_from label [] = label
convert_from label ((k, v) ∷ m) = convert_from (k <> "=" <> v) m

unfoldable pub convert_labels_to_str : Option (GoMap String String) → String
unfolding convert_from
convert_labels_to_str none = ""
convert_labels_to_str (some m) = convert_from "" m

-- The map holds the slice header of before the loop, so it sees the written array at its old length.
unfoldable pub write_through : String → List ℕ → GoMap String (List ℕ) → GoMap String (List ℕ)
write_through label array m = elim (lookup label m) [ none ↦ m | some _ ↦ insert label array m ]

module _ {E : Type 0} where
  -- The maps that UnMapLabelIdentity deletes from.
  unfoldable pub forget : ℕ → String → Operator E → Operator E
  forget identity ew_name s = record s {
    map_identity_to_ewname = delete identity s.map_identity_to_ewname;
    map_ewname_to_identity = delete ew_name s.map_ewname_to_identity;
    map_identity_to_label = delete identity s.map_identity_to_label;
  }

  -- What its loop leaves behind: the shortened slice is dropped.
  unfoldable pub keep_array : String → Option Window → Prog (Operator E) (Unit {0})
  unfolding write_through
  keep_array label none s = exit panicked s
  keep_array label (some w) s =
      done tt (record s {
        map_label_to_identities = write_through label w.array s.map_label_to_identities;
      })

  -- Its loop over the identities of the label.
  unfoldable pub remove_from_label : ℕ → String → Prog (Operator E) (Unit {0})
  remove_from_label identity label s =
      keep_array label
        (remove_identity identity (value_or (lookup label s.map_label_to_identities) [])) s

module _ {E : Type 0} (d : Driver E) where
  -- `mapStr, _ := json.Marshal(dm.MapLabelToIdentities[label])` and its EtcdPut
  unfoldable pub publish_label : String → Prog (Operator E) (Unit {0})
  publish_label label s =
      put_or_fatal d (kvm_opr_label_to_identities <> label)
        (marshal_ids (lookup label s.map_label_to_identities)) s

  unfoldable pub unmap_label_identity : ℕ → String → String → Prog (Operator E) (Unit {0})
  unmap_label_identity identity ew_name label = do
    modify (forget identity ew_name)
    delete_or_fatal d (kvm_opr_identity_to_ewname <> format_uint identity)
    delete_or_fatal d (kvm_opr_ewname_to_identity <> ew_name)
    delete_or_fatal d (kvm_opr_identity_to_label <> format_uint identity)
    remove_from_label identity label
    publish_label label

  -- The part of UpdateIdentityLabelsMap under `if !found`.
  unfoldable pub add_to_label : ℕ → String → Prog (Operator E) (Unit {0})
  unfolding publish_label
  add_to_label identity label s =
      let ids = value_or (lookup label s.map_label_to_identities) [] in
      if (find ids identity).1
      then done tt s
      else publish_label label (record s {
        map_label_to_identities = insert label (ids ++ identity ∷ []) s.map_label_to_identities;
      })

  unfoldable pub update_identity_labels_map : ℕ → String → Prog (Operator E) (Unit {0})
  unfolding add_to_label
  update_identity_labels_map identity label = do
    modify (λ s. record s { map_identity_to_label = insert identity label s.map_identity_to_label })
    put_or_fatal d (kvm_opr_identity_to_label <> format_uint identity) label
    add_to_label identity label

-- The getters; a missing key reads as the zero value.
unfoldable pub get_ew_identity_from_name : {E : Type 0} → String → Operator E → ℕ
get_ew_identity_from_name name s = value_or (lookup name s.map_ewname_to_identity) 0

unfoldable pub get_external_workload_identities : {E : Type 0} → String → Operator E → List ℕ
get_external_workload_identities name s = value_or (lookup name s.map_label_to_identities) []

unfoldable pub get_external_workload_label : {E : Type 0} → ℕ → Operator E → String
get_external_workload_label identity s = value_or (lookup identity s.map_identity_to_label) ""

-- The labels in the order of this run.
unfoldable pub get_external_work_load_all_labels :
    {E : Type 0} → (GoMap String (List ℕ) → GoMap String (List ℕ)) → Operator E → List String
get_external_work_load_all_labels range s = keys (range s.map_label_to_identities)
