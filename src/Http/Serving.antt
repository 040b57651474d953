-- ===== src/Http/Serving.antt =====
-- The handlers of internal/httpapi on the store in memory.
use Prim.Native.String.{◌++◌ as append}
use token_bucket_rate_limite.Prelude.{
  ◌≡◌, refl, ◌⊎◌, inl, inr, none, some, String, arith, eq_iff, str_eq, if◌then◌else◌, Option-cases,
}
use token_bucket_rate_limite.Prelude.Map.{lookup, insert, lookup-insert, lookup-delete, delete}
use token_bucket_rate_limite.Float.{Float}
use token_bucket_rate_limite.Clock.{Time}
use token_bucket_rate_limite.Limiter.Config.{Config, ConfigError, validate}
use token_bucket_rate_limite.Limiter.Decision.{Decision}
use token_bucket_rate_limite.Limiter.Manager
use token_bucket_rate_limite.Limiter.Manager.{Manager}
use token_bucket_rate_limite.Limiter.Manager.View.{view, IsValid, client_allow, allow-view}
use token_bucket_rate_limite.Limiter.Store.{manager_store}
use token_bucket_rate_limite.Http.Defs.{Response, no_response, with_header, Codec, IsCodec}
use token_bucket_rate_limite.Http.Handlers.{
  format_seconds, format_seconds_ceil, decision_response, check, set_client_config,
  get_client_config, remove_client,
}

module _ {F : Type 0} ⦃fl : Float F⦄ (codec : Codec (ConfigError F) F) where
  -- What a response says of a decision.
  pub record Reports (w : Response) (d : Decision F) : Type 0 where
    pub status : w.status ≡ (if d.allowed then 200 else 429)
    pub body : w.body ≡ (if d.allowed then "ALLOW" else "DENY")
    pub limit : lookup "X-RateLimit-Limit" w.headers ≡ some (codec.format d.limit)
    pub remaining : lookup "X-RateLimit-Remaining" w.headers ≡ some (codec.format d.remaining)
    pub reset : lookup "X-RateLimit-Reset" w.headers ≡ some (format_seconds codec d.reset_after)
    pub retry :
        lookup "Retry-After" w.headers
        ≡ (if d.allowed then none else some (format_seconds_ceil codec d.retry_after))

  decision_response-Reports : (d : Decision F) → Reports (decision_response codec d) d
  unfolding decision_response with_header lookup insert
  decision_response-Reports d = record {
    status = ground arith;
    body = ground arith;
    limit = ground arith;
    remaining = ground arith;
    reset = ground arith;
    retry = ground arith;
  }

  -- `GET /check/{key}` on a valid manager always answers: 200 ALLOW or 429 DENY by the decision on
  -- the client as if it were alone, with its limit, remaining and reset headers, and with
  -- Retry-After exactly on a denial. The manager after it is valid, and no other client changed.
  pub check-Reports :
      (m : Manager F) (key : String) (now : Time)
      → IsValid m
      → (after : Manager F) × (w : Response) × (check manager_store codec m key now
          ≡ some (after, w))
        × Reports w (client_allow (view m key) now).1
        × IsValid after
        × ((j : String)
            → view after j ≡ (if str_eq key j then (client_allow (view m key) now).0 else view m j))
  unfolding check
  check-Reports m key now v =
      let (after, same, valid, seen) = allow-view m v key now in
      let d = (client_allow (view m key) now).1 in
      (after, decision_response codec d, rw same refl, decision_response-Reports d, valid, seen)

  pub sum-cases :
      (x : String ⊎ Config F) → ((a : String) × (x ≡ inl a)) ⊎ ((b : Config F) × (x ≡ inr b))
  sum-cases (inl a) = inl (a, refl)
  sum-cases (inr b) = inr (b, refl)

  accepted :
      (m : Manager F) (key : String) (cfg : Config F)
      → validate cfg ≡ none
      → Manager.set_config m key cfg
        ≡ (record m { configs = insert key cfg m.configs; limiters = delete key m.limiters }, none)
  unfolding Manager.set_config
  accepted m key cfg good = rw (good, Manager.set_config) refl

  refused :
      (m : Manager F) (key : String) (cfg : Config F) (e : ConfigError F)
      → validate cfg ≡ some e
      → Manager.set_config m key cfg ≡ (m, some e)
  unfolding Manager.set_config
  refused m key cfg e bad = rw (bad, Manager.set_config) refl

  put_accepted :
      (m : Manager F) (key body : String) (cfg : Config F)
      → codec.decode_config body ≡ inr cfg
      → validate cfg ≡ none
      → set_client_config manager_store codec m key body ≡ (
        record m { configs = insert key cfg m.configs; limiters = delete key m.limiters },
        no_response,
      )
  unfolding set_client_config
  put_accepted m key body cfg decodes good =
      rw (decodes, set_client_config, accepted m key cfg good) refl

  put_refused :
      (m : Manager F) (key body : String) (cfg : Config F) (e : ConfigError F)
      → codec.decode_config body ≡ inr cfg
      → validate cfg ≡ some e
      → set_client_config manager_store codec m key body
        ≡ (m, codec.http_error (codec.error_text e) 400)
  unfolding set_client_config
  put_refused m key body cfg e decodes bad =
      rw (decodes, set_client_config, refused m key cfg e bad) refl

  put_unread :
      (m : Manager F) (key body message : String)
      → codec.decode_config body ≡ inl message
      → set_client_config manager_store codec m key body
        ≡ (m, codec.http_error (append "invalid JSON body: " message) 400)
  unfolding set_client_config
  put_unread m key body message bad = rw (bad, set_client_config) refl

  got :
      (m : Manager F) (key : String) (cfg : Config F)
      → lookup key m.configs ≡ some cfg
      → let answer = (get_client_config manager_store codec m key).1 in
        (answer.status ≡ 200) × (answer.body ≡ codec.encode_config cfg)
  unfolding get_client_config Manager.get_config with_header
  got m key cfg e = rw (e, get_client_config) (refl, refl)

  not_got :
      (m : Manager F) (key : String)
      → lookup key m.configs ≡ none
      → (get_client_config manager_store codec m key).1
        ≡ codec.http_error (append "no config for client " key) 404
  unfolding get_client_config Manager.get_config
  not_got m key e = rw (e, get_client_config) refl

  -- Why a body is not stored: it does not decode, or it decodes to a config that does not validate.
  abbrev pub IsRejected : String → Type 0
  IsRejected body =
      ((message : String) × (codec.decode_config body ≡ inl message))
      ⊎ ((cfg : Config F) × (e : ConfigError F) × (codec.decode_config body ≡ inr cfg)
          × (validate cfg ≡ some e))

  -- On the store in memory, `PUT /admin/clients/{key}` with a body that decodes to a config that
  -- validates answers 200, stores the config and drops the limiter of the client. With a body that
  -- does not decode, or to a config that does not validate, it answers 400 and changes nothing. One
  -- of the two holds of every body.
  pub set_client_config-status :
      IsCodec codec
      → (m : Manager F) (key body : String)
      → let (after, w) = set_client_config manager_store codec m key body in
        ((cfg : Config F) × (codec.decode_config body ≡ inr cfg)
          × (validate cfg ≡ none)
          × (w ≡ no_response)
          × (after
              ≡ record m { configs = insert key cfg m.configs; limiters = delete key m.limiters }))
        ⊎ (IsRejected body × (w.status ≡ 400) × (after ≡ m))
  set_client_config-status laws m key body = elim (sum-cases (codec.decode_config body)) [
    | inl (message, bad) ↦
        rw (put_unread m key body message bad)
          (inr (inl (message, bad), laws.http_error-status _ 400, refl))
    | inr (cfg, decodes) ↦ elim (Option-cases (validate cfg)) [
      | inl good ↦
          rw (put_accepted m key body cfg decodes good) (inl (cfg, decodes, good, refl, refl))
      | inr (e, bad) ↦
          rw (put_refused m key body cfg e decodes bad)
            (inr (inr (cfg, e, decodes, bad), laws.http_error-status _ 400, refl))
    ]
  ]

  -- On the store in memory, a body that decodes to a config that validates is put with 200, the
  -- config that is then got is the one that was put, and after a removal a get answers 404.
  pub get_client_config-set_client_config :
      (m : Manager F) (key body : String) (cfg : Config F)
      → codec.decode_config body ≡ inr cfg
      → validate cfg ≡ none
      → let (put, w) = set_client_config manager_store codec m key body in
        let (got, answer) = get_client_config manager_store codec put key in
        let (removed, done) = remove_client manager_store codec got key in
        let (last, missing) = get_client_config manager_store codec removed key in
        (w ≡ no_response)
        × (answer.status ≡ 200)
        × (answer.body ≡ codec.encode_config cfg)
        × (done ≡ no_response)
        × (missing ≡ codec.http_error (append "no config for client " key) 404)
  unfolding remove_client get_client_config Manager.remove_client
  get_client_config-set_client_config m key body cfg decodes good =
      let stored = record m {
        configs = insert key cfg m.configs;
        limiters = delete key m.limiters;
      } in
      let found : lookup key stored.configs ≡ some cfg =
        ground (arith, lookup-insert key key cfg m.configs, eq_iff key key) in
      let gone : lookup key (delete key stored.configs) ≡ none =
        ground (arith, lookup-delete key key stored.configs, eq_iff key key) in
      let (status, text) = got stored key cfg found in
      rw (put_accepted m key body cfg decodes good)
        (refl, status, text, refl, not_got (Manager.remove_client stored key) key gone)
