-- ===== src/Common/Network/Polling.antt =====
-- What GetExternalIP returns, and when.
use kvm_service.Prelude.{
  ℕ, zero, suc, ◌+◌, ◌<◌, String, List, [], ◌∷◌, none, some, ◌≡◌, ◌≢◌, refl, string_eq, ==_of_ne,
  arith,
}
use kvm_service.Go.Outcome.{done, Result, ok, err}
use kvm_service.Common.Network.{external_ip_loop, get_external_ip}

loop-ends :
    (answer : ℕ → Result (List String)) (rounds n : ℕ) (ip : String)
    → ip ≢ ""
    → external_ip_loop answer rounds n ip ≡ some ip
unfolding external_ip_loop
loop-ends answer zero n ip nonempty = rw (==_of_ne ip "" nonempty) refl
loop-ends answer (suc rounds) n ip nonempty = rw (==_of_ne ip "" nonempty, external_ip_loop) refl

module _ (answer : ℕ → Result (List String)) (last : ℕ)
    (pending : (j : ℕ) → j < last → answer j ≡ ok []) where
  -- The loop asks up to the answer that is not pending.
  loop-asks :
      (gap rounds total n : ℕ)
      → n + gap ≡ last
      → total ≡ gap + rounds
      → external_ip_loop answer total n "" ≡ external_ip_loop answer rounds last ""
  unfolding external_ip_loop
  loop-asks zero rounds total n h e =
      let q : n ≡ last = omega arith in let r : total ≡ rounds = omega arith in rw (q, r) refl
  loop-asks (suc gap) rounds zero n h e = absurd (omega arith)
  loop-asks (suc gap) rounds (suc total) n h e =
      rw (pending n (omega arith), external_ip_loop)
        (loop-asks gap rounds total (suc n) (omega arith) (omega arith))

-- When every answer before one has no address and that one has a nonempty address first,
-- GetExternalIP returns this address without an error after one round for each answer.
pub get_external_ip-address :
    (answer : ℕ → Result (List String)) (last rounds : ℕ) (ip : String) (more : List String)
    → ((j : ℕ) → j < last → answer j ≡ ok [])
    → answer last ≡ ok (ip ∷ more)
    → ip ≢ ""
    → get_external_ip (ok tt) answer (last + suc rounds) ≡ done (ip, none) tt
unfolding get_external_ip external_ip_loop
get_external_ip-address answer last rounds ip more pending found nonempty =
    rw
      (
        loop-asks answer last pending last (suc rounds) (last + suc rounds) zero (omega arith) refl,
        get_external_ip,
      )
      (rw (found, external_ip_loop) (rw (loop-ends answer rounds (suc last) ip nonempty) refl))

-- When every answer before one has no address and that one is an error, GetExternalIP returns an
-- empty address without an error.
pub get_external_ip-hides_error :
    (answer : ℕ → Result (List String)) (last rounds : ℕ) (message : String)
    → ((j : ℕ) → j < last → answer j ≡ ok [])
    → answer last ≡ err message
    → get_external_ip (ok tt) answer (last + suc rounds) ≡ done ("", none) tt
unfolding get_external_ip external_ip_loop
get_external_ip-hides_error answer last rounds message pending failed =
    rw
      (
        loop-asks answer last pending last (suc rounds) (last + suc rounds) zero (omega arith) refl,
        get_external_ip,
      )
      (rw (failed, external_ip_loop) refl)
