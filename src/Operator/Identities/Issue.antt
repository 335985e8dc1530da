-- ===== src/Operator/Identities/Issue.antt =====
-- What a new identity is, and when the search for one ends.
use kvm_service.Prelude.{
  ℕ, zero, suc, ◌+◌, ◌%◌, ◌^◌, ◌<◌, String, Option, some, Bool, true, false, ◌≡◌, refl, sym, ◌∙◌,
  inl, inr, lookup, lookup-insert, ◌<>◌, ◌==◌, nat_eq, string_eq, if◌then◌else◌, Bool-cases,
  ==_refl, ==-apart, apart, arith, subst,
}
use native.Mathlib.Nat.{mod-lt}
use kvm_service.Constants.{kvm_opr_identity_to_ewname, kvm_opr_ewname_to_identity}
use kvm_service.Go.Outcome.{done, Ensures}
use kvm_service.Go.Outcome.Rules.{Ensures-weaken}
use kvm_service.Go.Strconv.{format_uint}
use kvm_service.Etcd.Driver.{Driver, IsLawful, IsHealthy}
use kvm_service.Operator.State.{Operator}
use kvm_service.Operator.Writes.{wrote, put_or_fatal-done, read-put}
use kvm_service.Operator.Identities.{is_free, enter, register, generate_external_workload_identity}

pub is_free-drawn :
    {E : Type 0} (identity n : ℕ) (s : Operator E)
    → is_free identity (record s { drawn = n }) ≡ is_free identity s
unfolding is_free
is_free-drawn identity n s = refl

module _ {E : Type 0} (read : E → String → Option String) where
  -- The identity was free and is entered under the name, in both maps and in the store; the other
  -- entries of the maps, the labels and the policies are as before.
  pub record IsIssued (s : Operator E) (name : String) (identity : ℕ) (s' : Operator E)
      : Type 0 where
    pub in_range : identity < 2 ^ 16
    pub was_free : is_free identity s ≡ true
    pub names :
        (j : ℕ)
        → lookup j s'.map_identity_to_ewname
          ≡ (if identity == j then some name else lookup j s.map_identity_to_ewname)
    pub identities :
        (n : String)
        → lookup n s'.map_ewname_to_identity
          ≡ (if name == n then some identity else lookup n s.map_ewname_to_identity)
    pub labels : s'.map_label_to_identities ≡ s.map_label_to_identities
    pub policies : s'.external_workload_security_policies ≡ s.external_workload_security_policies
    pub stored_name : read s'.etcd (kvm_opr_identity_to_ewname <> format_uint identity) ≡ some name
    pub stored_identity :
        read s'.etcd (kvm_opr_ewname_to_identity <> name) ≡ some (format_uint identity)

module _ {E : Type 0} (d : Driver E) (healthy : IsHealthy d) (lawful : IsLawful d) where
  abbrev registered : ℕ → String → Operator E → Operator E
  registered identity name s =
      wrote d (kvm_opr_ewname_to_identity <> name) (format_uint identity)
        (wrote d (kvm_opr_identity_to_ewname <> format_uint identity) name (enter identity name s))

  register-done :
      (identity : ℕ) (name : String) (s : Operator E)
      → register d identity name s ≡ done identity (registered identity name s)
  unfolding register
  register-done identity name s = rw (
    put_or_fatal-done d healthy (kvm_opr_identity_to_ewname <> format_uint identity) name
        (enter identity name s),
    put_or_fatal-done d healthy (kvm_opr_ewname_to_identity <> name) (format_uint identity) _,
  )

  registered-IsIssued :
      (identity : ℕ) (name : String) (s : Operator E)
      → identity < 2 ^ 16
      → is_free identity s ≡ true
      → IsIssued lawful.read s name identity (registered identity name s)
  unfolding enter apart
  registered-IsIssued identity name s h f = record {
    in_range = h;
    was_free = f;
    names = λ j. lookup-insert identity j name s.map_identity_to_ewname;
    identities = λ n. lookup-insert name n identity s.map_ewname_to_identity;
    labels = refl;
    policies = refl;
    stored_name =
        read-put d healthy lawful name_key (format_uint identity) _ id_key
        ∙ (rw
            (==-apart kvm_opr_ewname_to_identity kvm_opr_identity_to_ewname name
              (format_uint identity) refl)
            (read-put d healthy lawful id_key name _ id_key ∙ (rw (==_refl id_key))));
    stored_identity =
        read-put d healthy lawful name_key (format_uint identity) _ name_key
        ∙ (rw (==_refl name_key));
  }
    where
      id_key : String
      id_key = kvm_opr_identity_to_ewname <> format_uint identity

      name_key : String
      name_key = kvm_opr_ewname_to_identity <> name

  -- One round of the search.
  generate-round :
      (random : ℕ → ℕ) (rounds : ℕ) (name : String) (s : Operator E) (b : Bool)
      → is_free (random s.drawn % 2 ^ 16) s ≡ b
      → generate_external_workload_identity d random (suc rounds) name s ≡ (elim b [
        | true ↦ register d (random s.drawn % 2 ^ 16) name (record s { drawn = s.drawn + 1 })
        | false ↦
            generate_external_workload_identity d random rounds name
              (record s { drawn = s.drawn + 1 })
      ])
  unfolding generate_external_workload_identity
  generate-round random rounds name s b e = rw (e, generate_external_workload_identity)

  IsIssued-drawn :
      (name : String) (n identity : ℕ) (s s' : Operator E)
      → IsIssued lawful.read (record s { drawn = n }) name identity s'
      → IsIssued lawful.read s name identity s'
  IsIssued-drawn name n identity s s' h = record {
    in_range = h.in_range;
    was_free = sym (is_free-drawn identity n s) ∙ h.was_free;
    names = h.names;
    identities = h.identities;
    labels = h.labels;
    policies = h.policies;
    stored_name = h.stored_name;
    stored_identity = h.stored_identity;
  }

  generate_here :
      (random : ℕ → ℕ) (rounds : ℕ) (name : String) (s : Operator E)
      → is_free (random s.drawn % 2 ^ 16) s ≡ true
      → Ensures
          (IsIssued lawful.read s name)
          (generate_external_workload_identity d random (suc rounds) name s)
  generate_here random rounds name s free =
      let s' = record s { drawn = s.drawn + 1 } in
      rw
        (
          generate-round random rounds name s true free,
          register-done (random s.drawn % 2 ^ 16) name s',
        )
        (IsIssued-drawn name (s.drawn + 1) _ s _ (
          registered-IsIssued (random s.drawn % 2 ^ 16) name s' (mod-lt _ (omega arith))
            (is_free-drawn _ _ s ∙ free)))

  -- On a healthy store that keeps etcd's promises, and where one of the numbers drawn within the
  -- rounds is a free identity, the search returns a free identity of 16 bits that is then entered
  -- under the name in both maps and in the store, with labels and policies unchanged.
  pub generate-IsIssued :
      (random : ℕ → ℕ) (rounds k : ℕ) (name : String) (s : Operator E)
      → k < rounds
      → is_free (random (s.drawn + k) % 2 ^ 16) s ≡ true
      → Ensures
          (IsIssued lawful.read s name)
          (generate_external_workload_identity d random rounds name s)
  generate-IsIssued random zero k name s h f = absurd (omega arith)
  generate-IsIssued random (suc rounds) zero name s h f =
      generate_here random rounds name s
        (subst (λ n. is_free (random n % 2 ^ 16) s ≡ true) (omega arith) f)
  generate-IsIssued random (suc rounds) (suc k) name s h f =
      let s' = record s { drawn = s.drawn + 1 } in
      elim (Bool-cases (is_free (random s.drawn % 2 ^ 16) s)) [
        | inl free ↦ generate_here random rounds name s free
        | inr taken ↦
            let later : s.drawn + suc k ≡ s.drawn + 1 + k = omega arith in
            rw (generate-round random rounds name s false taken) (
              Ensures-weaken (IsIssued lawful.read s' name) (IsIssued lawful.read s name) _
                (generate-IsIssued random rounds k name s' (omega arith)
                  (is_free-drawn _ _ s ∙ subst (λ n. is_free (random n % 2 ^ 16) s ≡ true) later f))
                (λ i t. IsIssued-drawn name (s.drawn + 1) i s t))
      ]
