-- ===== src/Forward/Tests.antt =====
-- A check that is forwarded to a node that trusts the tenant field, and to one that does not.
use distributed_rate_limiter.Prelude.{◌≡◌, refl, true, false, none, text_eq}
use distributed_rate_limiter.Prelude.Int.{ℤ}
use distributed_rate_limiter.Decide.{decide, peer_unavailable}
use distributed_rate_limiter.Decide.Examples.{example_parts, example_service, example_query}
use distributed_rate_limiter.Grpcapi.{GrpcServer}
use distributed_rate_limiter.Forward.Relay.{
  exchange, exchange_relays, exchange_refused, remote_query, relayed,
}

abbrev trusting : GrpcServer
trusting = record { keys = none; trust_tenant = true }

abbrev wary : GrpcServer
wary = record { keys = none; trust_tenant = false }

-- A duration as it is, in place of its message.
abbrev keep : ℤ → ℤ
keep d = d

exchange_relays_example :
    exchange keep keep example_parts trusting example_query example_service ≡ (
      (decide example_parts (remote_query example_query) example_service).0,
      relayed (decide example_parts (remote_query example_query) example_service).1,
    )
unfolding text_eq
exchange_relays_example =
    exchange_relays keep keep example_parts trusting example_query example_service (λ z. refl) refl
      refl

exchange_refused_example :
    exchange keep keep example_parts wary example_query example_service
    ≡ (example_service, peer_unavailable)
unfolding text_eq
exchange_refused_example =
    exchange_refused keep keep example_parts wary example_query example_service refl refl
