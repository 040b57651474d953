-- ===== src/Limiter/SlidingWindow.antt =====
-- internal/limiter/slidingwindow.go: the sliding-window counter, its state and one request. The
-- children are about it: Roll on the windows, Counts on the requests that are counted, Retry on
-- the wait that a denial reports, Extremes on windows of 0 and of 2^62 nanoseconds and more.
--
-- A method is a function on the record, as for the token bucket.
pub mod Start
pub mod Roll
pub mod Counts
pub mod Retry
pub mod Extremes
mod Tests
use token_bucket_rate_limite.Prelude.{Bool, pos, if◌then◌else◌, leb_ℤ, add64, sub64}
use token_bucket_rate_limite.Float.{Float, num}
use token_bucket_rate_limite.Clock.{Time, Duration, time_sub, time_add}
use token_bucket_rate_limite.Limiter.Decision.{Decision}

pub record SlidingWindow (F : Type 0) : Type 0 where
  pub limit : F
  pub window : Duration
  pub window_start : Time
  pub current_count : F
  pub previous_count : F

-- The serializable form.
pub record SlidingWindowState (F : Type 0) : Type 0 where
  pub limit : F
  pub window : Duration
  pub window_start : Time
  pub current_count : F
  pub previous_count : F

module _ {F : Type 0} where
  unfoldable pub state : SlidingWindow F → SlidingWindowState F
  state s = record {
    limit = s.limit;
    window = s.window;
    window_start = s.window_start;
    current_count = s.current_count;
    previous_count = s.previous_count;
  }

  unfoldable pub new_sliding_window_from_state : SlidingWindowState F → SlidingWindow F
  new_sliding_window_from_state s = record {
    limit = s.limit;
    window = s.window;
    window_start = s.window_start;
    current_count = s.current_count;
    previous_count = s.previous_count;
  }

module _ {F : Type 0} ⦃fl : Float F⦄ where
  unfoldable pub new_sliding_window : F → Duration → Time → SlidingWindow F
  new_sliding_window limit window now = record {
    limit = limit;
    window = window;
    window_start = now;
    current_count = num 0;
    previous_count = num 0;
  }

  -- The `switch` of `Allow`. `2*s.window` is an int64 product.
  unfoldable pub roll : SlidingWindow F → Time → SlidingWindow F
  roll s now =
      let elapsed = time_sub now s.window_start in
      if leb_ℤ (add64 s.window s.window) elapsed
      then record s { current_count = num 0; previous_count = num 0; window_start = now }
      else if leb_ℤ s.window elapsed
      then record s {
        previous_count = s.current_count;
        current_count = num 0;
        window_start = time_add s.window_start s.window;
      }
      else s

  -- The weighted count of a window that has been rolled to `now`.
  unfoldable pub estimate : SlidingWindow F → Time → F
  estimate s now =
      let elapsed_in_current = time_sub now s.window_start in
      let weight = fl.div (fl.of_ℤ (sub64 s.window elapsed_in_current)) (fl.of_ℤ s.window) in
      fl.add (fl.mul s.previous_count weight) s.current_count

  -- `Allow`: the window after the request, and the decision.
  unfoldable pub allow : SlidingWindow F → Time → SlidingWindow F × Decision F
  allow s now =
      let rolled = roll s now in
      let estimated = estimate rolled now in
      let allowed = fl.lt estimated rolled.limit in
      let count = if allowed then fl.add rolled.current_count (num 1) else rolled.current_count in
      let consumed = if allowed then num 1 else num 0 in
      let reset_after = sub64 rolled.window (time_sub now rolled.window_start) in
      (
        record rolled { current_count = count },
        record {
          allowed = allowed;
          limit = rolled.limit;
          remaining = fl.max (num 0) (fl.floor (fl.sub rolled.limit (fl.add estimated consumed)));
          retry_after = if allowed then pos 0 else reset_after;
          reset_after = reset_after;
        },
      )
