-- ===== src/K8s/Watch.antt =====
-- The endless loop in which a daemon watches a resource: it is written once in each daemon
-- (src/operator/core/crdHandler.go, src/service/core/kvmsUpdate.go), around its own handler of an
-- event. What the decoder reads from a response, up to its end or its first error, is the parameter
-- `decoded`. The wait before the next round is left out.
use kvm_service.Prelude.{
  ℕ, zero, suc, String, List, [], ◌++◌, Option, none, some, ◌≡◌, refl, sym, ◌∙◌, ap, not,
  if◌then◌else◌, Bool-cases, inl, inr,
}
use kvm_service.Go.Outcome.{Outcome, Prog, done, exit, Returns, continue, for_each}
use kvm_service.Go.Outcome.Rules.{for_each-append}
use kvm_service.Common.Environment.{Environment}
use kvm_service.K8s.Handler.{K8sHandler, Platform, check_custom_resource_definition}

-- A daemon and the API server that it watches.
pub record Watching (S H : Type 0) : Type 0 where
  pub daemon : S
  pub api : H

-- A step of the daemon beside the API server.
abbrev pub beside : {S H A : Type 0} → H → Outcome S A → Outcome (Watching S H) A
beside h (done a s) = done a (record { daemon = s; api = h })
beside h (exit e s) = exit e (record { daemon = s; api = h })

module _ {H R V : Type 0} (p : Platform H R) (env : Environment) (kh : K8sHandler)
    (crd_name : String) (watch : H → Option R × H) (decoded : R → List V) where
  -- The events of one response, where there is one.
  abbrev pub events_of : Option R → List V
  events_of none = []
  events_of (some resp) = decoded resp

  -- One round: the events that it decodes, and the API server after it.
  unfoldable pub round_events : H → List V × H
  round_events h =
      let (defined, h1) = check_custom_resource_definition p env kh crd_name h in
      let (resp, h2) = watch h1 in if not defined then ([], h1) else (events_of resp, h2)

  -- The events of the first rounds.
  unfoldable pub first_events : ℕ → H → List V
  first_events zero h = []
  first_events (suc rounds) h = let (now, h') = round_events h in now ++ first_events rounds h'

  module _ {S : Type 0} (handle : V → Prog S (Unit {0})) where
    -- What follows `resp != nil`.
    unfoldable pub handle_response : Option R → Prog S (Unit {0})
    handle_response none s = done tt s
    handle_response (some resp) s = for_each (decoded resp) handle s

    -- The body of the loop.
    unfoldable pub watch_round : Prog (Watching S H) (Unit {0})
    unfolding handle_response
    watch_round w =
        let (defined, h1) = check_custom_resource_definition p env kh crd_name w.api in
        let (resp, h2) = watch h1 in
        if not defined
        then done tt (record w { api = h1 })
        else beside h2 (handle_response resp w.daemon)

    -- The first rounds of the loop, which has no end.
    unfoldable pub watch_rounds : ℕ → Prog (Watching S H) (Unit {0})
    watch_rounds zero w = done tt w
    watch_rounds (suc rounds) w = continue (watch_round w) (λ _. watch_rounds rounds)

-- The daemon's side of an outcome.
abbrev pub daemon_side : {S H A : Type 0} → Outcome (Watching S H) A → Outcome S A
daemon_side (done a w) = done a w.daemon
daemon_side (exit e w) = exit e w.daemon

-- What the daemon's side of a return is, the daemon of the return is.
pub Returns-daemon_side :
    {S H : Type 0} (P : S → Type 0) (o : Outcome (Watching S H) (Unit {0}))
    → Returns (λ _ t. P t) (daemon_side o)
    → Returns (λ _ w. P w.daemon) o
Returns-daemon_side P (done a w) h = h
Returns-daemon_side P (exit e w) h = tt

module _ {H R V : Type 0} (p : Platform H R) (env : Environment) (kh : K8sHandler)
    (crd_name : String) (watch : H → Option R × H) (decoded : R → List V) {S : Type 0}
    (handle : V → Prog S (Unit {0})) where
  abbrev rounds_from : ℕ → Prog (Watching S H) (Unit {0})
  rounds_from = watch_rounds p env kh crd_name watch decoded handle

  -- The daemon's side of what follows a round.
  after_round :
      (rounds : ℕ) (later : List V) (h : H) (o : Outcome S (Unit {0}))
      → ((s : S)
          → daemon_side (rounds_from rounds (record { daemon = s; api = h }))
            ≡ for_each later handle s)
      → daemon_side (continue (beside h o) (λ _. rounds_from rounds))
        ≡ continue o (λ _. for_each later handle)
  after_round rounds later h (done a s) ih = ih s
  after_round rounds later h (exit e s) ih = refl

  handle_response-for_each :
      (answer : Option R) (s : S)
      → handle_response p env kh crd_name watch decoded handle answer s
        ≡ for_each (events_of p env kh crd_name watch decoded answer) handle s
  unfolding handle_response
  handle_response-for_each none s = refl
  handle_response-for_each (some resp) s = refl

  -- A round is the loop over its events.
  watch_round-for_each :
      (w : Watching S H)
      → watch_round p env kh crd_name watch decoded handle w
        ≡ beside
            (round_events p env kh crd_name watch decoded w.api).1
            (for_each (round_events p env kh crd_name watch decoded w.api).0 handle w.daemon)
  unfolding watch_round round_events
  watch_round-for_each w =
      elim (Bool-cases (check_custom_resource_definition p env kh crd_name w.api).0) [
        | inr undefined ↦ rw undefined
        | inl defined ↦ rw (defined, handle_response-for_each)
      ]

  -- The loops of both watchers, whatever the API server answers: the first rounds do to the daemon
  -- what its handler does to the events of those rounds, one after the other.
  pub watch_rounds-for_each :
      (rounds : ℕ) (w : Watching S H)
      → daemon_side (watch_rounds p env kh crd_name watch decoded handle rounds w)
        ≡ for_each (first_events p env kh crd_name watch decoded rounds w.api) handle w.daemon
  unfolding watch_rounds first_events
  watch_rounds-for_each zero w = refl
  watch_rounds-for_each (suc rounds) w =
      let (now, h) = round_events p env kh crd_name watch decoded w.api in
      let later = first_events p env kh crd_name watch decoded rounds h in
      ap (λ o. daemon_side (continue o (λ _. rounds_from rounds))) (watch_round-for_each w)
      ∙ after_round rounds later h (for_each now handle w.daemon)
          (λ s. watch_rounds-for_each rounds (record { daemon = s; api = h }))
      ∙ sym (for_each-append now later handle w.daemon)
