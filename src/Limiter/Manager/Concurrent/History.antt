-- ===== src/Limiter/Manager/Concurrent/History.antt =====
-- The order in which a client's requests that run at the same time reach its limiter, and the limiter
-- on requests that come one after another: `Allow` of internal/limiter/manager.go.
use mathlib.Core.List.{map}
use token_bucket_rate_limite.Prelude.{
  ℕ, ◌≡◌, ◌≢◌, refl, ap, Option, none, some, List, [], ◌∷◌, ◌++◌, String, str_eq, get_elem?,
  if◌then◌else◌,
}
use token_bucket_rate_limite.Float.{Float}
use token_bucket_rate_limite.Clock.{Time}
use token_bucket_rate_limite.Limiter.Config.{Config}
use token_bucket_rate_limite.Limiter.Decision.{Decision}
use token_bucket_rate_limite.Limiter.Algorithm
use token_bucket_rate_limite.Limiter.Algorithm.{Limiter, new_limiter}
use token_bucket_rate_limite.Limiter.Manager.{Manager}
use token_bucket_rate_limite.Limiter.Manager.View.{view, config_of}
use token_bucket_rate_limite.Limiter.Manager.Concurrent.{
  Stage, holding, decided, counted, InFlight, Busy, begins, calls, counts, configures, removes,
  Reach, idle, later,
}

-- A call of a limiter: by which request, and when.
pub record LimiterCall : Type 0 where
  pub request : ℕ
  pub time : Time

abbrev pub times : List LimiterCall → List Time
times ks = map (λ k. k.time) ks

module _ {F : Type 0} where
  abbrev pub answer : Stage F → Option (Decision F)
  answer (holding p) = none
  answer (decided d) = some d
  answer (counted d) = some d

  abbrev pub answered : Option (InFlight F) → Option (Decision F)
  answered none = none
  answered (some r) = answer r.stage

  -- What a request was answered, if it was.
  abbrev pub answer_in : List (InFlight F) → ℕ → Option (Decision F)
  answer_in rs i = answered (get_elem? rs i)

  abbrev pub weigh_answer : (Decision F → ℕ) → Option (Decision F) → ℕ
  weigh_answer f none = 0
  weigh_answer f (some d) = f d

  -- A measure of the answer, for a request of the client that has one.
  abbrev pub weigh : String → (Decision F → ℕ) → InFlight F → ℕ
  weigh j f r = if str_eq r.client j then weigh_answer f (answer r.stage) else 0

module _ {F : Type 0} ⦃fl : Float F⦄ where
  -- Requests to a limiter at these times, one after another: the limiter after them, and the
  -- decisions.
  unfoldable pub serve_all : Limiter F → List Time → Limiter F × List (Decision F)
  serve_all l [] = (l, [])
  serve_all l (t ∷ ts) =
      let (after, d) = Algorithm.allow l t in let (last, ds) = serve_all after ts in (last, d ∷ ds)

  pub serve_all-append :
      (l : Limiter F) (ts : List Time) (t : Time)
      → let (last, ds) = serve_all l ts in
        let (after, d) = Algorithm.allow last t in
        serve_all l (ts ++ (t ∷ [])) ≡ (after, ds ++ (d ∷ []))
  unfolding serve_all
  serve_all-append l [] t = refl
  serve_all-append l (u ∷ ts) t =
      let (after, d) = Algorithm.allow l u in
      ap (λ (r : Limiter F × List (Decision F)). (r.0, d ∷ r.1)) (serve_all-append after ts t)

  -- The same from a limiter that there may not be.
  unfoldable pub run_from : Option (Limiter F) → List Time → Option (Limiter F) × List (Decision F)
  run_from none ts = (none, [])
  run_from (some l) ts = let (last, ds) = serve_all l ts in (some last, ds)

  abbrev pub or_made : Config F → Option (Limiter F) → Time → Option (Limiter F)
  or_made cfg (some l) now = some l
  or_made cfg none now = some (new_limiter cfg now)

  module _ (m : Manager F) (j : String) where
    -- Nobody sets or removes the config of the client.
    unfoldable pub Spares : {s : Busy F} → Reach m s → Type 0
    Spares idle = Unit
    Spares (later r (begins id now)) = Spares r
    Spares (later r (calls i q p now after d at hold e)) = Spares r
    Spares (later r (counts i q d at done)) = Spares r
    Spares (later r (configures id cfg)) = (id ≢ j) × Spares r
    Spares (later r (removes id)) = (id ≢ j) × Spares r

    -- The calls of the client's limiter, in the order in which its mutex lets them in.
    unfoldable pub calls_of : {s : Busy F} → Reach m s → List LimiterCall
    calls_of idle = []
    calls_of (later r (begins id now)) = calls_of r
    calls_of (later r (calls i q p now after d at hold e)) =
        let ks = calls_of r in
        if str_eq q.client j then ks ++ (record { request = i; time = now } ∷ []) else ks
    calls_of (later r (counts i q d at done)) = calls_of r
    calls_of (later r (configures id cfg)) = calls_of r
    calls_of (later r (removes id)) = calls_of r

    -- The limiter that the client has from the start, or else the one that its first request makes.
    unfoldable pub first_limiter : {s : Busy F} → Reach m s → Option (Limiter F)
    first_limiter idle = (view m j).limiter
    first_limiter (later r (begins id now)) =
        let l = first_limiter r in if str_eq id j then or_made (config_of (view m j)) l now else l
    first_limiter (later r (calls i q p now after d at hold e)) = first_limiter r
    first_limiter (later r (counts i q d at done)) = first_limiter r
    first_limiter (later r (configures id cfg)) = first_limiter r
    first_limiter (later r (removes id)) = first_limiter r
