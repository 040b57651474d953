-- ===== src/Limiter/SlidingWindow/Start.antt =====
-- Requests in sequence, a window at its start, and the one that `roll` starts anew.
use token_bucket_rate_limite.Prelude.{
  ℕ, ◌^◌, ◌<◌, ◌≡◌, refl, true, pos, leb_ℤ, arith, add64, sub64, List, [], ◌∷◌,
}
use token_bucket_rate_limite.Float.{Float, num}
use token_bucket_rate_limite.Float.Laws.{IsOrdered}
use token_bucket_rate_limite.Clock.{Time, time_sub, time_sub_self}
use token_bucket_rate_limite.Limiter.Decision.{Decision}
use token_bucket_rate_limite.Limiter.SlidingWindow.{SlidingWindow, roll, estimate, allow}

-- The decisions on requests at these times, one after the other.
unfoldable pub decisions :
    {F : Type 0} ⦃fl : Float F⦄ → SlidingWindow F → List Time → List (Decision F)
decisions s [] = []
decisions s (t ∷ ts) = let (after, d) = allow s t in d ∷ decisions after ts

pub sub64_zero : (w : ℕ) → w < 2 ^ 63 → sub64 (pos w) (pos 0) ≡ pos w
unfolding sub64
sub64_zero w h = ground arith

module _ {F : Type 0} ⦃fl : Float F⦄ where
  abbrev pub restarted : SlidingWindow F → Time → SlidingWindow F
  restarted s now = record s { current_count = num 0; previous_count = num 0; window_start = now }

  pub roll_restarts :
      (s : SlidingWindow F) (now : Time)
      → leb_ℤ (add64 s.window s.window) (time_sub now s.window_start) ≡ true
      → roll s now ≡ restarted s now
  unfolding roll
  roll_restarts s now idle = rw idle

  module _ (laws : IsOrdered F) where
    open laws use {mul_one, div_self}

    -- At the start of a window the previous count has its full weight.
    pub estimate_at_start :
        (s : SlidingWindow F) (w : ℕ)
        → s.window ≡ pos w
        → 0 < w
        → w < 2 ^ 63
        → estimate s s.window_start ≡ fl.add s.previous_count s.current_count
    unfolding estimate
    estimate_at_start s w e h lt =
        rw (estimate, time_sub_self s.window_start, e, sub64_zero w lt, div_self w h lt, mul_one)
          refl
