-- ===== src/Service/Stream/Isolation.antt =====
-- All agents' streams together: which events reach which agent, over every interleaving.
pub mod Lost
use kvm_service.Prelude.{
  All-append, subst, ℕ, String, List, [], ◌∷◌, ◌++◌, Bool, true, false, ◌≡◌, ◌≢◌, refl, ◌==◌,
  nat_eq, ==_cases, ==_of_ne, ==_refl, if◌then◌else◌, All, Bool-cases, Option-cases, inl, inr,
  contains,
}
use kvm_service.Go.Outcome.{Outcome, done, exit, Result, Result-cases, ok, final}
use kvm_service.Types.Events.{K8sKubeArmorHostPolicyEvent, K8sKubeArmorHostPolicyEventWithIdentity}
use kvm_service.Service.Stream.{Wire, Agent, Next, again, closed, write, receive}

-- The channel with the messages that no stream has taken, and what each stream has written: a
-- stream is named by a number.
pub record Streams : Type 0 where
  pub channel : List K8sKubeArmorHostPolicyEventWithIdentity
  pub wires : ℕ → Wire
  -- the streams that have returned
  pub ended : List ℕ
  -- whether the process runs
  pub up : Bool

abbrev pub put_wire : ℕ → Wire → (ℕ → Wire) → ℕ → Wire
put_wire i w wires j = if i == j then w else wires j

-- A stream that returns takes no more messages.
abbrev pub ended_by : ℕ → Outcome Wire Next → List ℕ → List ℕ
ended_by i (done again w) ended = ended
ended_by i (done closed w) ended = i ∷ ended
ended_by i (exit e w) ended = ended

-- A panic in one handler ends the process, and with it every stream.
abbrev pub is_up : Outcome Wire Next → Bool
is_up (done n w) = true
is_up (exit e w) = false

module _ (marshal : K8sKubeArmorHostPolicyEvent → Result String) (own : ℕ → ℕ) where
  -- The state after stream i, whose agent has the identity `own i`, takes the message.
  unfoldable pub taken :
      ℕ
      → Agent
      → K8sKubeArmorHostPolicyEventWithIdentity
      → List K8sKubeArmorHostPolicyEventWithIdentity
      → Streams
      → Streams
  taken i agent m rest s =
      let r = receive marshal (own i) agent m (s.wires i) in
      record {
        channel = rest;
        wires = put_wire i (final r) s.wires;
        ended = ended_by i r s.ended;
        up = is_up r;
      }

module _ (marshal : K8sKubeArmorHostPolicyEvent → Result String) (own : ℕ → ℕ)
    (P : K8sKubeArmorHostPolicyEventWithIdentity → Type 0) where
  -- While the process is up, any stream that has not ended may take the next message, or the daemon
  -- sends one more, of which P holds.
  pub data Step : Streams → Streams → Type 0 where
    take_next :
        (i : ℕ) (agent : Agent) (m : K8sKubeArmorHostPolicyEventWithIdentity)
        (rest : List K8sKubeArmorHostPolicyEventWithIdentity) (s : Streams)
        → s.up ≡ true
        → s.channel ≡ m ∷ rest
        → contains s.ended i ≡ false
        → Step s (taken marshal own i agent m rest s)
    send_one :
        (m : K8sKubeArmorHostPolicyEventWithIdentity) (s : Streams)
        → s.up ≡ true
        → P m
        → Step s (record s { channel = s.channel ++ m ∷ [] })

  pub data Run : Streams → Streams → Type 0 where
    stay : (s : Streams) → Run s s
    step : (s t u : Streams) → Run s t → Step t u → Run s u

  -- A policy that an agent got was marshalled from a message for its identity that P holds of.
  pub record IsMeant (identity : ℕ) (policy : String) : Type 0 where
    pub message : K8sKubeArmorHostPolicyEventWithIdentity
    pub sent : P message
    pub addressed : message.identity ≡ identity
    pub text : marshal message.event ≡ ok policy

  receive-IsMeant :
      (identity : ℕ) (agent : Agent) (m : K8sKubeArmorHostPolicyEventWithIdentity) (w : Wire)
      → P m
      → All (IsMeant identity) w.written
      → All (IsMeant identity) (final (receive marshal identity agent m w)).written
  unfolding receive
  receive-IsMeant identity agent m w p meant = elim (==_cases m.identity identity) [
    | inr other ↦ rw (==_of_ne m.identity identity other, receive) meant
    | inl same ↦
        rw (same, ==_refl identity, receive)
          (elim (Bool-cases m.close_connection) [
            | inl h ↦ rw h meant
            | inr h ↦ rw h (elim (Result-cases (marshal m.event)) [
              | inr (e, failed) ↦ rw failed meant
              | inl (policy, text) ↦ rw text (elim (Option-cases agent.status) [
                | inl none_read ↦ rw none_read (by_send policy text same)
                | inr (n, read) ↦ rw read (by_send policy text same)
              ])
            ])
          ])
  ]
    where
      by_send :
          (policy : String)
          → marshal m.event ≡ ok policy
          → m.identity ≡ identity
          → All (IsMeant identity) (write agent policy w).written
      by_send policy text same = elim (Bool-cases agent.send_fails) [
        | inl fails ↦ rw fails meant
        | inr sends ↦
            rw sends (record { message = m; sent = p; addressed = same; text = text }, meant)
      ]

  -- The messages that wait are allowed, and what the agents got was meant for them.
  pub record IsSafe (s : Streams) : Type 0 where
    pub waiting : All P s.channel
    pub got : (i : ℕ) → All (IsMeant (own i)) (s.wires i).written

  Step-IsSafe : (s t : Streams) → Step s t → IsSafe s → IsSafe t
  unfolding taken
  Step-IsSafe _ _ (take_next i agent m rest s up next running) safe =
      let (p, ps) = subst (All P) next safe.waiting in
      record {
        waiting = ps;
        got = λ j. elim (==_cases i j) [
          | inl same ↦
              rw (← same, ==_refl i) (receive-IsMeant (own i) agent m (s.wires i) p (safe.got i))
          | inr other ↦ rw (==_of_ne i j other) (safe.got j)
        ];
      }
  Step-IsSafe _ _ (send_one m s up p) safe = record {
    waiting = All-append P s.channel (m ∷ []) safe.waiting (p, tt);
    got = safe.got;
  }

  -- In every interleaving of streams and sends, from a state in which a predicate holds of the
  -- messages that wait and no agent has got anything, each policy that an agent has got is the text
  -- of a message for its identity of which the predicate holds, if it holds of every message that
  -- is sent.
  pub Run-IsSafe :
      (s t : Streams) → Run s t → All P s.channel → ((i : ℕ) → (s.wires i).written ≡ []) → IsSafe t
  Run-IsSafe _ _ (stay s) waiting nothing = record {
    waiting = waiting;
    got = λ i. rw (nothing i) tt;
  }
  Run-IsSafe _ _ (step s t u run last) waiting nothing =
      Step-IsSafe t u last (Run-IsSafe s t run waiting nothing)
