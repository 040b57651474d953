-- ===== src/Http/Routes.antt =====
-- The routes: `Register` of the three handlers in internal/httpapi, and `healthHandler` of main.go.
-- net/http's ServeMux is a parameter.
use token_bucket_rate_limite.Prelude.{◌≡◌, Option, none, some, [], String}
use token_bucket_rate_limite.Prelude.Map.{GoMap, lookup, insert}
use token_bucket_rate_limite.Float.{Float}
use token_bucket_rate_limite.Clock.{Time}
use token_bucket_rate_limite.Limiter.Store.{Store}
use token_bucket_rate_limite.Http.Defs.{Response, no_response, with_header, Codec}
use token_bucket_rate_limite.Http.Handlers
use token_bucket_rate_limite.Http.Handlers.{check, set_client_config, get_client_config}

pub record Request : Type 0 where
  pub method : String
  pub path : String
  pub body : String

-- A handler takes the state of the store, the path value `key`, the body, and the time. `none` is a
-- panic.
abbrev pub Handler : Type 0 → Type 0
Handler S = S → String → String → Time → Option (S × Response)

-- A mux finds the handler of a request among those registered under their patterns, with the path
-- value `key`, or answers the request itself.
pub record Mux (S : Type 0) : Type 0 where
  pub find : GoMap (Handler S) → Request → Option (Handler S × String)
  pub unmatched : GoMap (Handler S) → Request → Response

-- It finds only what is registered.
pub record IsMux {S : Type 0} (mux : Mux S) : Type 0 where
  pub registered :
      (table : GoMap (Handler S)) (r : Request) (h : Handler S) (key : String)
      → mux.find table r ≡ some (h, key)
      → (pattern : String) × (lookup pattern table ≡ some h)

abbrev pub health_response : Response
health_response = record (with_header no_response "Content-Type" "text/plain; charset=utf-8") {
  body = "OK";
}

module _ {S : Type 0} where
  abbrev pub health_handler : Handler S
  health_handler s key body now = some (s, health_response)

module _ {S E F : Type 0} ⦃fl : Float F⦄ (store : Store S E F) (codec : Codec E F) where
  unfoldable pub register_admin : GoMap (Handler S) → GoMap (Handler S)
  register_admin table =
      let put : Handler S = λ s key body now. some (set_client_config store codec s key body) in
      let get : Handler S = λ s key body now. some (get_client_config store codec s key) in
      let remove : Handler S = λ s key body now. some (Handlers.remove_client store codec s key) in
      insert "DELETE /admin/clients/{key}" remove
        (insert "GET /admin/clients/{key}" get (insert "PUT /admin/clients/{key}" put table))

  unfoldable pub register_check : GoMap (Handler S) → GoMap (Handler S)
  register_check = insert "GET /check/{key}" (λ s key body now. check store codec s key now)

  unfoldable pub register_stats : GoMap (Handler S) → GoMap (Handler S)
  register_stats = insert "GET /stats" (λ s key body now. some (Handlers.stats store codec s))

  -- The mux that `main` builds.
  unfoldable pub routes : GoMap (Handler S)
  routes = register_stats (register_check (register_admin (insert "GET /health" health_handler [])))

  -- A request to the server.
  unfoldable pub serve : Mux S → S → Request → Time → Option (S × Response)
  serve mux s r now = elim (mux.find routes r) [
    | none ↦ some (s, mux.unmatched routes r)
    | some (h, key) ↦ h s key r.body now
  ]
