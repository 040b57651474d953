-- ===== src/Http/Handlers.antt =====
-- The handlers of internal/httpapi: check.go, admin.go and stats.go. A handler takes the state of the
-- store and the request's parts, and gives the state after and the response.
use Prim.Native.String.{◌++◌ as append}
use mathlib.Core.Option
use token_bucket_rate_limite.Prelude.{Option, none, some, String, inl, inr, if◌then◌else◌}
use token_bucket_rate_limite.Float.{Float}
use token_bucket_rate_limite.Clock.{Time, Duration}
use token_bucket_rate_limite.Limiter.Decision.{Decision}
use token_bucket_rate_limite.Limiter.Store.{Store}
use token_bucket_rate_limite.Http.Defs.{Response, no_response, with_header, Codec}

module _ {E F : Type 0} ⦃fl : Float F⦄ (codec : Codec E F) where
  unfoldable pub format_seconds : Duration → String
  format_seconds d = codec.format_whole (fl.floor (fl.seconds d))

  unfoldable pub format_seconds_ceil : Duration → String
  format_seconds_ceil d = codec.format_whole (fl.ceil (fl.seconds d))

  -- The response to a decision.
  unfoldable pub decision_response : Decision F → Response
  decision_response d =
      let limit = with_header no_response "X-RateLimit-Limit" (codec.format d.limit) in
      let remaining = with_header limit "X-RateLimit-Remaining" (codec.format d.remaining) in
      let reset = with_header remaining "X-RateLimit-Reset" (format_seconds d.reset_after) in
      let retry = with_header reset "Retry-After" (format_seconds_ceil d.retry_after) in
      if d.allowed
      then record reset { status = 200; body = "ALLOW" }
      else record retry { status = 429; body = "DENY" }

module _ {S E F : Type 0} ⦃fl : Float F⦄ (store : Store S E F) (codec : Codec E F) where
  unfoldable pub check : S → String → Time → Option (S × Response)
  check s key now = Option.map (λ r. (r.0, decision_response codec r.1)) (store.allow s key now)

  unfoldable pub set_client_config : S → String → String → S × Response
  set_client_config s key body = elim (codec.decode_config body) [
    | inl message ↦ (s, codec.http_error (append "invalid JSON body: " message) 400)
    | inr cfg ↦
        let (after, error) = store.set_config s key cfg in
        (
          after,
          elim error [ some e ↦ codec.http_error (codec.error_text e) 400 | none ↦ no_response ],
        )
  ]

  unfoldable pub get_client_config : S → String → S × Response
  get_client_config s key =
      let (after, stored) = store.get_config s key in
      (
        after,
        elim stored [
          | none ↦ codec.http_error (append "no config for client " key) 404
          | some cfg ↦ record (with_header no_response "Content-Type" "application/json") {
            body = codec.encode_config cfg;
          }
        ],
      )

  unfoldable pub remove_client : S → String → S × Response
  remove_client s key = (store.remove_client s key, no_response)

  unfoldable pub stats : S → S × Response
  stats s =
      let (after, counts) = store.stats s in
      let typed = with_header no_response "Content-Type" "application/json" in
      (
        after,
        record (with_header typed "Access-Control-Allow-Origin" "*") {
          body = codec.encode_stats counts;
        },
      )
