-- ===== src/Service/Server/Identity.antt =====
-- The identity of an agent in the metadata of its calls (GetIdentityFromContext of
-- src/service/server/kvmserver.go) against the text in which the identity is handed out.
use kvm_service.Prelude.{ℕ, ◌^◌, ◌<◌, String, List, ◌∷◌, some, ◌≡◌, ◌∙◌, ap, arith}
use kvm_service.Go.Strconv.{format_uint, to_uint16}
use kvm_service.Go.Strconv.RoundTrip.{atoi-format_uint}
use kvm_service.Service.Server.{get_identity_from_context}

-- An agent that sends the decimal text of an identity of 16 bits as the first value of its metadata
-- is taken to have this identity.
pub get_identity_from_context-format_uint :
    (identity : ℕ) (values : List String)
    → identity < 2 ^ 16
    → get_identity_from_context (some (format_uint identity ∷ values)) ≡ identity
unfolding get_identity_from_context
get_identity_from_context-format_uint identity values h =
    ap to_uint16 (atoi-format_uint identity (omega arith)) ∙ (omega arith)
