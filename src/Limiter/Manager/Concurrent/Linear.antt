-- ===== src/Limiter/Manager/Concurrent/Linear.antt =====
-- Requests that run at the same time are served by their client's limiter one after another:
-- `Allow` of internal/limiter/manager.go.
use mathlib.Core.List.{map}
use token_bucket_rate_limite.Prelude.{ℕ, ◌≡◌, refl, sym, ap, some, String, total}
use token_bucket_rate_limite.Float.{Float}
use token_bucket_rate_limite.Limiter.Config.{Config}
use token_bucket_rate_limite.Limiter.Decision.{Decision}
use token_bucket_rate_limite.Limiter.Manager.{Manager}
use token_bucket_rate_limite.Limiter.Manager.View.{view, config_of, IsValid}
use token_bucket_rate_limite.Limiter.Manager.Concurrent.{
  Busy, begins, calls, counts, configures, removes, Reach, idle, later,
}
use token_bucket_rate_limite.Limiter.Manager.Concurrent.History.{
  times, answer_in, weigh, run_from, Spares, calls_of, first_limiter,
}
use token_bucket_rate_limite.Limiter.Manager.Concurrent.Held.{Reach-IsOwned}
use token_bucket_rate_limite.Limiter.Manager.Concurrent.Answers.{run_from-nil}
use token_bucket_rate_limite.Limiter.Manager.Concurrent.Order.{IsInOrder, begins_lem}
use token_bucket_rate_limite.Limiter.Manager.Concurrent.Serving.{
  counts_kept, calls_lem, configures_other, removes_other,
}

module _ {F : Type 0} ⦃fl : Float F⦄ (m : Manager F) (v : IsValid m) (j : String) where
  abbrev cfg : Config F
  cfg = config_of (view m j)

  Reach-IsInOrder :
      {s : Busy F} (r : Reach m s)
      → Spares m j r
      → IsInOrder j cfg s (first_limiter m j r) (calls_of m j r)
  unfolding Spares first_limiter calls_of
  Reach-IsInOrder idle spared = record {
    limiter = sym (run_from-nil (view m j).limiter).0;
    answers = ap (map some) (sym (run_from-nil (view m j).limiter).1);
    weighed = λ f. ap (total f) (sym (run_from-nil (view m j).limiter).1);
    config = refl;
    held = λ i q p at hold mine. cc;
  }
  Reach-IsInOrder (later {s = s} r (begins id now)) spared =
      begins_lem j cfg s (first_limiter m j r) (calls_of m j r) (Reach-IsInOrder r spared)
        (Reach-IsOwned m v r).1.valid id now
  Reach-IsInOrder (later {s = s} r (calls i q p now after d at hold e)) spared =
      let (owner, owned) = Reach-IsOwned m v r in
      calls_lem j cfg s (first_limiter m j r) (calls_of m j r) (Reach-IsInOrder r spared) i q p now
        after d at hold e owner owned
  Reach-IsInOrder (later {s = s} r (counts i q d at done)) spared =
      counts_kept j cfg s (first_limiter m j r) (calls_of m j r) (Reach-IsInOrder r spared) i q d at
        done
  Reach-IsInOrder (later {s = s} r (configures id new)) spared =
      configures_other j cfg s (first_limiter m j r) (calls_of m j r) (Reach-IsInOrder r spared.1)
        id new spared.0
  Reach-IsInOrder (later {s = s} r (removes id)) spared =
      removes_other j cfg s (first_limiter m j r) (calls_of m j r) (Reach-IsInOrder r spared.1) id
        spared.0

  -- However calls of `Allow`, `SetConfig` and `RemoveClient` interleave, from a valid manager on, if
  -- no config of the client is set or removed: the answers to the calls of the client's limiter, in
  -- the order in which its mutex lets them in, are the decisions of a limiter that serves requests
  -- at these times one after another, the one that the client has at the start or that its first
  -- request makes; the client's limiter is that limiter after them; and by any measure the answers
  -- that the client's requests have add up to what the decisions do.
  pub Reach-serve_all :
      {s : Busy F} (r : Reach m s)
      → Spares m j r
      → let ks = calls_of m j r in
        let (last, ds) = run_from (first_limiter m j r) (times ks) in
        (map (λ k. answer_in s.requests k.request) ks ≡ map some ds)
        × ((view s.manager j).limiter ≡ last)
        × ((f : Decision F → ℕ) → total (weigh j f) s.requests ≡ total f ds)
  Reach-serve_all r spared = let v = Reach-IsInOrder r spared in (v.answers, v.limiter, v.weighed)
