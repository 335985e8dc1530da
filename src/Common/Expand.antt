-- ===== src/Common/Expand.antt =====
-- ObjCommaCanBeExpanded, ObjCommaExpand and ObjCommaExpandFirstDupOthers. By reflection they take a
-- pointer to a slice of structs whose first field is a string. `Object` is what `reflect` tells of
-- the argument: a struct of another first field has its fields as one unknown value of type F.
pub mod Again
use kvm_service.Prelude.{String, List, [], ◌∷◌, ◌++◌, Bool, true, false, not, ◌==◌, string_eq}
use kvm_service.Go.Strings.{split, first_piece, remove_all}

module _ (F : Type 0) where
  -- A struct whose first field is a string, with the other fields.
  pub record Item : Type 0 where
    pub field0 : String
    pub others : F

  pub data Object : Type 0 where
    -- no pointer; a pointer to no slice; a pointer to a slice of values that are no such structs
    not_pointer not_slice not_items : Object
    -- a pointer to a slice of such structs
    items : List Item → Object

module _ {F : Type 0} where
  unfoldable pub obj_comma_can_be_expanded : Object F → Bool
  obj_comma_can_be_expanded (Object.items (x ∷ xs)) =
      not (first_piece (split b',' x.field0) == x.field0)
  obj_comma_can_be_expanded _ = false

  unfoldable pub obj_comma_expand : Item F → List String
  obj_comma_expand v = split b',' v.field0

  -- The inner loop: a copy of the struct for each piece, with the piece less its spaces.
  unfoldable pub copies : Item F → List String → List (Item F)
  copies v [] = []
  copies v (f ∷ fs) = record v { field0 = remove_all b' ' f } ∷ copies v fs

  -- The outer loop.
  unfoldable pub expand_items : List (Item F) → List (Item F)
  unfolding copies obj_comma_expand
  expand_items [] = []
  expand_items (v ∷ old) = copies v (obj_comma_expand v) ++ expand_items old

  unfoldable pub obj_comma_expand_first_dup_others : Object F → Object F
  unfolding obj_comma_can_be_expanded expand_items
  obj_comma_expand_first_dup_others (Object.items old) =
      elim (obj_comma_can_be_expanded (Object.items old)) [
        | true ↦ Object.items (expand_items old)
        | false ↦ Object.items old
      ]
  obj_comma_expand_first_dup_others o = o
