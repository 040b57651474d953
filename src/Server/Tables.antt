-- ===== src/Server/Tables.antt =====
-- A table of handlers, of which each answers every request: `Register` of internal/httpapi and the mux
-- of main.go, whatever the store is.
use token_bucket_rate_limite.Prelude.{
  ◌≡◌, inl, inr, subst, some, [], String, arith, Option-cases, Bool-cases, str_eq,
}
use token_bucket_rate_limite.Prelude.Map.{GoMap, lookup, insert, lookup-insert}
use token_bucket_rate_limite.Float.{Float}
use token_bucket_rate_limite.Clock.{Time}
use token_bucket_rate_limite.Limiter.Store.{Store}
use token_bucket_rate_limite.Http.Defs.{Response, Codec}
use token_bucket_rate_limite.Http.Routes.{Handler, Request, Mux, IsMux, routes, serve}

module _ {S : Type 0} (P : S → Type 0) where
  -- A handler that answers on every state with the property and keeps that.
  abbrev pub IsServing : Handler S → Type 0
  IsServing h =
      (s : S) (key body : String) (now : Time)
      → P s
      → (after : S) × (w : Response) × (h s key body now ≡ some (after, w)) × P after

  abbrev pub AreServing : GoMap (Handler S) → Type 0
  AreServing table =
      (pattern : String) (h : Handler S) → lookup pattern table ≡ some h → IsServing h

  pub AreServing-empty : AreServing []
  unfolding lookup
  AreServing-empty pattern h at = cc

  pub AreServing-insert :
      (pattern : String) (h : Handler S) (table : GoMap (Handler S))
      → IsServing h
      → AreServing table
      → AreServing (insert pattern h table)
  AreServing-insert pattern h table good rest other g at =
      elim (Bool-cases (str_eq pattern other)) [
        | inl same ↦
            let is_h : h ≡ g = ground (arith, lookup-insert pattern other h table) in
            subst IsServing is_h good
        | inr different ↦ rest other g (ground (arith, lookup-insert pattern other h table))
      ]

module _ {S E F : Type 0} ⦃fl : Float F⦄ (store : Store S E F) (codec : Codec E F)
    (P : S → Type 0) where
  -- Every request is answered if every route answers.
  pub serve-AreServing :
      (mux : Mux S) (s : S) (r : Request) (now : Time)
      → IsMux mux
      → AreServing P (routes store codec)
      → P s
      → (after : S) × (w : Response) × (serve store codec mux s r now ≡ some (after, w)) × P after
  unfolding serve
  serve-AreServing mux s r now laws serving v =
      let table = routes store codec in
      elim (Option-cases (mux.find table r)) [
        | inl nothing ↦ (s, mux.unmatched table r, rw (nothing, serve), v)
        | inr ((h, key), found) ↦
            let (pattern, at) = laws.registered table r h key found in
            let (after, w, same, valid) = serving pattern h at s key r.body now v in
            (after, w, rw (found, serve, same), valid)
      ]
