-- ===== src/Service/Stream/Closing/Ended.antt =====
-- What the routine leaves behind, and why a stream ends.
use kvm_service.Prelude.{
  ℕ, ◌<◌, ◌^◌, String, List, [], ◌∷◌, ◌++◌, Option, none, some, true, Bool, ap, ◌∙◌, ◌≡◌, ◌≢◌, refl,
  subst, GoMap, All, All-append, length, get_or, starts_with, nat_eq, string_eq, ==_refl, ==_of_ne,
  ==_cases, Bool-cases, Option-cases, inl, inr,
}
use kvm_service.Go.Outcome.{Outcome, Result, Result-cases, Returns, Ensures}
use kvm_service.Go.Outcome.Rules.{
  Returns-continue, Returns-fatal_on, Returns-for_each, Ensures-continue, Ensures-both,
}
use kvm_service.Go.Slice.{remove_identity}
use kvm_service.Go.Json.{marshal_ids, unmarshal_ids}
use kvm_service.Types.Events.{K8sKubeArmorHostPolicyEvent, K8sKubeArmorHostPolicyEventWithIdentity}
use kvm_service.Etcd.Driver.{Driver, IsLawful, IsHealthy}
use kvm_service.Etcd.Client.{etcd_put, etcd_get, etcd_get_raw, etcd_delete}
use kvm_service.Service.State.{Kvms, PolicyChan, made, send, put_or_fatal, try_delete}
use kvm_service.Service.Sends.{send-done}
use kvm_service.Service.Server.{
  index_nil, get_or_fatal, get_raw_or_fatal, for_response, remove_and_store, leave_label,
  update_etcd_label_to_identities_maps,
}
use kvm_service.Service.Server.Departure.{seat, label_key, list_key}
use kvm_service.Service.Server.Departure.Leaving.{
  HasLeft, update_etcd_label_to_identities_maps-HasLeft,
}
use kvm_service.Service.Stream.{Wire, Agent, receive}
use kvm_service.Service.Stream.Isolation.{
  Streams, Step, take_next, send_one, Run, stay, step, taken, ended_by,
}
use kvm_service.Service.Stream.Closing.{close_event, leave_stream}

module _ {E : Type 0} (d : Driver E) (sent : List K8sKubeArmorHostPolicyEventWithIdentity)
    (c : PolicyChan) where
  -- The channel, and what was sent on it.
  abbrev Sent : Kvms E → Type 0
  Sent s = (s.sent ≡ sent) × (s.policy_chan ≡ c)

  abbrev KeepsSent : Outcome (Kvms E) (Unit {0}) → Type 0
  KeepsSent = Returns (λ _ t. Sent t)

  put-KeepsSent :
      (key value : String) (s : Kvms E) → Sent s → KeepsSent (put_or_fatal d key value s)
  unfolding put_or_fatal etcd_put
  put-KeepsSent key value s h =
      Returns-fatal_on (λ _ t. Sent t) (d.put key value none s.etcd).0 _ (λ _. h)

  remove_and_store-KeepsSent :
      (identity : ℕ) (label : String) (entry : String × String) (s : Kvms E)
      → Sent s
      → KeepsSent (remove_and_store d identity label entry s)
  unfolding remove_and_store
  remove_and_store-KeepsSent identity label (key, value) s h =
      elim (Option-cases (unmarshal_ids value)) [
        | inl bad ↦ rw (bad, remove_and_store) tt
        | inr (none, nil) ↦ rw (nil, remove_and_store) (put-KeepsSent _ _ s h)
        | inr (some arr, read) ↦ elim (Option-cases (remove_identity identity arr)) [
          | inl out ↦ rw (read, out, remove_and_store) tt
          | inr (w, removed) ↦ rw (read, removed, remove_and_store) (put-KeepsSent _ _ s h)
        ]
      ]

  response-KeepsSent :
      (identity : ℕ) (label : String) (answer : Option (GoMap String String)) (s : Kvms E)
      → Sent s
      → KeepsSent (for_response answer (remove_and_store d identity label) s)
  unfolding for_response
  response-KeepsSent identity label none s h = tt
  response-KeepsSent identity label (some kvs) s h =
      Returns-for_each Sent kvs (remove_and_store d identity label) s
        (λ y t k. remove_and_store-KeepsSent identity label y t k) h

  -- A read changes nothing.
  abbrev Got : Option (GoMap String String) → Kvms E → Type 0
  Got _ t = Sent t

  get-KeepsSent : (key : String) (s : Kvms E) → Sent s → Returns Got (get_or_fatal d key s)
  unfolding get_or_fatal
  get-KeepsSent key s h = Returns-fatal_on Got (etcd_get d s.etcd_client key s.etcd) s (λ _. h)

  get_raw-KeepsSent : (key : String) (s : Kvms E) → Sent s → Returns Got (get_raw_or_fatal d key s)
  unfolding get_raw_or_fatal
  get_raw-KeepsSent key s h =
      Returns-fatal_on Got (etcd_get_raw d s.etcd_client key s.etcd) s (λ _. h)

  leave_label-KeepsSent :
      (identity : ℕ) (s : Kvms E) → Sent s → KeepsSent (leave_label d identity s)
  unfolding leave_label
  leave_label-KeepsSent identity s h =
      Returns-continue Got (λ _ t. Sent t) (get_or_fatal d (label_key identity) s) _
        (get-KeepsSent (label_key identity) s h)
        (λ labels s1 h1.
          let label = index_nil labels (label_key identity) in
          Returns-continue Got (λ _ t. Sent t) (get_raw_or_fatal d (list_key label) s1)
            (λ answer. for_response answer (remove_and_store d identity label))
            (get_raw-KeepsSent (list_key label) s1 h1)
            (λ answer s2 h2. response-KeepsSent identity label answer s2 h2))

  pub update-KeepsSent :
      (identity : ℕ) (s : Kvms E)
      → Sent s
      → KeepsSent (update_etcd_label_to_identities_maps d identity s)
  unfolding update_etcd_label_to_identities_maps try_delete
  update-KeepsSent identity s h =
      elim (Result-cases (etcd_delete d s.etcd_client (seat identity) s.etcd).0) [
        | inr (m, failed) ↦ rw failed h
        | inl (u, erased) ↦ rw erased (leave_label-KeepsSent identity _ h)
      ]

-- What the routine leaves.
pub record HasLeftStream (read read' : String → Option String) (identity : ℕ) (label : String)
    (arr : List ℕ) (sent sent' : List K8sKubeArmorHostPolicyEventWithIdentity) : Type 0 where
  pub left : HasLeft read read' identity label arr
  pub closing : sent' ≡ sent ++ close_event identity ∷ []

-- On a healthy store that keeps etcd's promises, where the identity is not 0, the stored list of
-- its label names it once, no other key begins with that list's key and a stream receives the next
-- message that is sent on the channel, the routine that sees the end of an agent's stream returns:
-- every address whose key begins with the key of the agent's own is deleted, the stored list holds
-- the other identities and no more, each entry under a key that is neither is as before, and one
-- message that closes the stream was sent behind those sent before.
pub leave_stream-HasLeftStream :
    {E : Type 0} (d : Driver E) (healthy : IsHealthy d) (lawful : IsLawful d) (identity : ℕ)
    (label : String) (s : Kvms E) (arr : List ℕ) (p : ℕ)
    → lawful.read s.etcd (label_key identity) ≡ some label
    → lawful.read s.etcd (list_key label) ≡ some (marshal_ids (some arr))
    → ((j : String)
        → starts_with j (list_key label) ≡ true
        → j ≢ list_key label
        → lawful.read s.etcd j ≡ none)
    → All (λ n. n < 2 ^ 16) arr
    → identity ≢ 0
    → p < length arr
    → get_or arr p 0 ≡ identity
    → ((k : ℕ) → k < length arr → k ≢ p → get_or arr k 0 ≢ identity)
    → (receives : ℕ → Bool) → s.policy_chan ≡ made receives
    → receives (length s.sent) ≡ true
    → Ensures
        (λ _ t.
          HasLeftStream (lawful.read s.etcd) (lawful.read t.etcd) identity label arr s.sent t.sent)
        (leave_stream d identity s)
unfolding leave_stream
leave_stream-HasLeftStream d healthy lawful identity label s arr p labelled listed alone small
      nonzero inside found once receives is_made received =
    let run = update_etcd_label_to_identities_maps d identity s in
    Ensures-continue _ _ run (λ _. send (close_event identity))
      (Ensures-both _ _ run
        (update_etcd_label_to_identities_maps-HasLeft d healthy lawful identity label s arr p
          labelled listed alone small nonzero inside found once)
        (update-KeepsSent d s.sent s.policy_chan identity s (refl, refl)))
      (λ _ t (left, (same, channel)).
        rw
          (send-done receives (close_event identity) t (channel ∙ is_made)
            (ap (λ l. receives (length l)) same ∙ received))
          (record { left = left; closing = ap (λ l. l ++ close_event identity ∷ []) same }))

module _ (marshal : K8sKubeArmorHostPolicyEvent → Result String) (own : ℕ → ℕ)
    (P : K8sKubeArmorHostPolicyEventWithIdentity → Type 0) where
  -- A message that closes the stream of the agent with the identity.
  pub record IsClosed (i : ℕ) : Type 0 where
    pub message : K8sKubeArmorHostPolicyEventWithIdentity
    pub sent : P message
    pub addressed : message.identity ≡ own i
    pub closes : message.close_connection ≡ true

  ended-IsClosed :
      (i : ℕ) (agent : Agent) (m : K8sKubeArmorHostPolicyEventWithIdentity) (w : Wire)
      (ended : List ℕ)
      → P m
      → All IsClosed ended
      → All IsClosed (ended_by i (receive marshal (own i) agent m w) ended)
  unfolding receive
  ended-IsClosed i agent m w ended p all = elim (==_cases m.identity (own i)) [
    | inr other ↦ rw (==_of_ne m.identity (own i) other, receive) all
    | inl same ↦
        rw (same, ==_refl (own i), receive)
          (elim (Bool-cases m.close_connection) [
            | inl h ↦ rw h (record { message = m; sent = p; addressed = same; closes = h }, all)
            | inr h ↦ rw h (elim (Result-cases (marshal m.event)) [
              | inr (e, failed) ↦ rw failed all
              | inl (policy, text) ↦ rw text (elim (Option-cases agent.status) [
                | inl none_read ↦ rw none_read all
                | inr (n, read) ↦ rw read all
              ])
            ])
          ])
  ]

  abbrev Closings : Streams → Type 0
  Closings s = All P s.channel × All IsClosed s.ended

  Step-Closings : (s t : Streams) → Step marshal own P s t → Closings s → Closings t
  unfolding taken
  Step-Closings _ _ (take_next i agent m rest s up next running) (waiting, all) =
      let (p, ps) = subst (All P) next waiting in
      (ps, ended-IsClosed i agent m (s.wires i) s.ended p all)
  Step-Closings _ _ (send_one m s up p) (waiting, all) =
      (All-append P s.channel (m ∷ []) waiting (p, tt), all)

  Run-Closings : (s t : Streams) → Run marshal own P s t → Closings s → Closings t
  Run-Closings _ _ (stay s) c = c
  Run-Closings _ _ (step s t u run last) c = Step-Closings t u last (Run-Closings s t run c)

  -- In every interleaving of streams and sends, from a state in which no stream has ended and a
  -- predicate holds of the messages that wait, each stream that has ended took a message that
  -- closes it, that is for its agent's identity and of which the predicate holds, if it holds of
  -- every message that is sent.
  pub Run-IsClosed :
      (s t : Streams)
      → Run marshal own P s t
      → All P s.channel
      → s.ended ≡ []
      → All IsClosed t.ended
  Run-IsClosed s t run waiting none_ended = (Run-Closings s t run (waiting, rw none_ended tt)).1
