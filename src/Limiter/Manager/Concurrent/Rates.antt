-- ===== src/Limiter/Manager/Concurrent/Rates.antt =====
-- The rate limit on requests that run at the same time: `Allow` of internal/limiter/manager.go with the
-- limiters of tokenbucket.go and slidingwindow.go.
use mathlib.Core.List.{map}
use token_bucket_rate_limite.Prelude.{
  ℕ, ◌+◌, ◌-◌, ◌*◌, ◌≤◌, ◌≡◌, refl, ap, ◌∙◌, some, List, [], ◌∷◌, String, arith, total,
  if◌then◌else◌,
}
use token_bucket_rate_limite.Float.{Float}
use token_bucket_rate_limite.Float.Laws.{IsOrdered}
use token_bucket_rate_limite.Float.Exact.{IsExact}
use token_bucket_rate_limite.Clock.{Time, at_second}
use token_bucket_rate_limite.Limiter.Decision.{Decision, count_allowed}
use token_bucket_rate_limite.Limiter.Algorithm
use token_bucket_rate_limite.Limiter.Algorithm.{bucket, sliding}
use token_bucket_rate_limite.Limiter.TokenBucket
use token_bucket_rate_limite.Limiter.TokenBucket.{TokenBucket}
use token_bucket_rate_limite.Limiter.TokenBucket.Ideal.{Ideal, embed}
use token_bucket_rate_limite.Limiter.TokenBucket.Rate.{Fits, IsRising, admitted, admitted-le}
use token_bucket_rate_limite.Limiter.SlidingWindow
use token_bucket_rate_limite.Limiter.SlidingWindow.{SlidingWindow}
use token_bucket_rate_limite.Limiter.SlidingWindow.Start.{decisions}
use token_bucket_rate_limite.Limiter.SlidingWindow.Counts.{HasCounted, AreWithin, window-le-limit}
use token_bucket_rate_limite.Limiter.Manager.{Manager}
use token_bucket_rate_limite.Limiter.Manager.View.{IsValid}
use token_bucket_rate_limite.Limiter.Manager.Concurrent.{Busy, Reach}
use token_bucket_rate_limite.Limiter.Manager.Concurrent.History.{
  times, weigh, serve_all, run_from, Spares, calls_of, first_limiter,
}
use token_bucket_rate_limite.Limiter.Manager.Concurrent.Linear.{Reach-serve_all}

abbrev pub admits : {F : Type 0} → Decision F → ℕ
admits d = if d.allowed then 1 else 0

-- How many requests of the client have been answered that they are allowed.
abbrev pub admitted_of : {F : Type 0} → Busy F → String → ℕ
admitted_of s j = total (weigh j admits) s.requests

module _ {F : Type 0} ⦃fl : Float F⦄ where
  total-admits :
      (b : TokenBucket F) (ts : List Time)
      → total admits (serve_all (bucket b) ts).1 ≡ admitted b ts
  unfolding serve_all admitted Algorithm.allow
  total-admits b [] = refl
  total-admits b (t ∷ ts) =
      let (after, d) = TokenBucket.allow b t in ap (λ n. admits d + n) (total-admits after ts)

  total-admits_sliding :
      (w : SlidingWindow F) (ts : List Time)
      → total admits (serve_all (sliding w) ts).1 ≡ count_allowed (decisions w ts)
  unfolding serve_all count_allowed decisions Algorithm.allow
  total-admits_sliding w [] = refl
  total-admits_sliding w (t ∷ ts) =
      let (after, d) = SlidingWindow.allow w t in
      ap (λ n. admits d + n) (total-admits_sliding after ts)

  module _ (exact : IsExact F) (m : Manager F) (v : IsValid m) (j : String) where
    -- However calls of `Allow`, `SetConfig` and `RemoveClient` interleave, from a valid manager on, if
    -- no config of the client is set or removed, and its limiter, the one that it has at the start
    -- or that its first request makes, is a bucket of whole tokens that is called at whole seconds
    -- in order: the client's requests that are allowed are at most the tokens that the bucket held
    -- and those that accrue until a time after the calls, where no number exceeds the exact ones.
    pub shared_admitted-le :
        {s : Busy F} (r : Reach m s) (i : Ideal) (until : ℕ) (ss : List ℕ)
        → Spares m j r
        → first_limiter m j r ≡ some (bucket (embed i))
        → times (calls_of m j r) ≡ map at_second ss
        → Fits i until
        → IsRising i.anchor until ss
        → admitted_of s j ≤ i.tokens + (until - i.anchor) * i.rate
    unfolding run_from
    shared_admitted-le {s = s} r i until ss spared first called fits rising =
        let (answers, last, sums) = Reach-serve_all m v j r spared in
        let served : total (weigh j admits) s.requests ≡ admitted (embed i) (map at_second ss) =
          (rw (first, called) at (sums admits)) ∙ total-admits (embed i) (map at_second ss) in
        omega (arith, served, admitted-le exact i until ss fits rising)

    -- However calls of `Allow`, `SetConfig` and `RemoveClient` interleave, from a valid manager on, if
    -- no config of the client is set or removed, and its limiter, the one that it has at the start or
    -- that its first request makes, is a sliding window above 0 and below 2^62 ns, with a whole limit
    -- below 2^53, a whole current count up to the limit, and a previous count that is finite and not
    -- negative: if all the calls of the limiter lie in its window, the requests that are allowed and
    -- those that it had counted are together at most the limit, whatever the weights are rounded to.
    pub shared_window-le :
        {s : Busy F} (laws : IsOrdered F) (r : Reach m s) (w : SlidingWindow F) (width l c : ℕ)
        → Spares m j r
        → first_limiter m j r ≡ some (sliding w)
        → HasCounted laws exact w width l c
        → AreWithin w.window_start width (times (calls_of m j r))
        → c + admitted_of s j ≤ l
    unfolding run_from
    shared_window-le {s = s} laws r w width l c spared first counted within =
        let (answers, last, sums) = Reach-serve_all m v j r spared in
        let ts = times (calls_of m j r) in
        let served : total (weigh j admits) s.requests ≡ count_allowed (decisions w ts) =
          (rw first at (sums admits)) ∙ total-admits_sliding w ts in
        omega (arith, served, window-le-limit laws exact w width l c ts counted within)
