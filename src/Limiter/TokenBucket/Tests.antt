-- ===== src/Limiter/TokenBucket/Tests.antt =====
-- The token bucket on concrete requests, and the theorems at them.
use mathlib.Core.List.{map}
use token_bucket_rate_limite.Prelude.{◌≡◌, refl, ◌+◌, ◌-◌, ◌*◌, ◌≤◌, true, pos, [], ◌∷◌, arith}
use token_bucket_rate_limite.Float.{num}
use token_bucket_rate_limite.Float.Nano.{Nano, nano_float, Nano-IsOrdered, Nano-IsExact}
use token_bucket_rate_limite.Clock.{at_second, time_sub}
use token_bucket_rate_limite.Limiter.TokenBucket.{
  TokenBucket, allow, refill, retry_after, reset_after,
}
use token_bucket_rate_limite.Limiter.TokenBucket.Bounds.{IsValid, allow-IsValid}
use token_bucket_rate_limite.Limiter.TokenBucket.Ideal.{Ideal, embed, allow-embed}
use token_bucket_rate_limite.Limiter.TokenBucket.Rate.{admitted, admitted-le, admitted-eq-length}

-- Two tokens of three at second 5, and two more each second.
abbrev two_of_three : Ideal
two_of_three = record { tokens = 2; anchor = 5; capacity = 3; rate = 2 }

abbrev at_work : TokenBucket Nano
at_work = embed two_of_three

at_work-IsValid : IsValid Nano-IsOrdered at_work
at_work-IsValid = record {
  some_tokens = refl;
  capped = refl;
  rate_nonneg = refl;
  rate_finite = Nano-IsOrdered.num-lt-infinity 2 (omega arith);
}

-- No token, and none to come.
abbrev dry : TokenBucket Nano
dry = embed (record { tokens = 0; anchor = 5; capacity = 3; rate = 0 })

dry-IsValid : IsValid Nano-IsOrdered dry
dry-IsValid = record {
  some_tokens = refl;
  capped = refl;
  rate_nonneg = refl;
  rate_finite = Nano-IsOrdered.num-lt-infinity 0 (omega arith);
}

-- At the third request of one second the bucket is empty.
admitted_at_once : admitted at_work (map at_second (5 ∷ 5 ∷ 5 ∷ [])) ≡ 2
unfolding admitted allow refill retry_after reset_after time_sub
admitted_at_once = refl

-- The wait for one token at two per second is half a second.
wait_for_half :
    (allow {F = Nano}
      (record { tokens = num 0; last_refill = pos 0; capacity = num 3; refill_rate = num 2 })
      (pos 0)).1.retry_after
    ≡ pos 500_000_000
unfolding allow refill retry_after reset_after time_sub
wait_for_half = refl

admitted-le_example : admitted at_work (map at_second (5 ∷ 5 ∷ 6 ∷ 8 ∷ [])) ≤ 2 + (9 - 5) * 2
admitted-le_example =
    admitted-le Nano-IsExact two_of_three 9 (5 ∷ 5 ∷ 6 ∷ 8 ∷ [])
      (record { within = omega arith; seconds_fit = omega arith; tokens_fit = omega arith })
      (ground arith)

admitted-eq-length_example : admitted at_work (map at_second (6 ∷ 7 ∷ 9 ∷ [])) ≡ 3
admitted-eq-length_example =
    admitted-eq-length Nano-IsExact two_of_three 9 (6 ∷ 7 ∷ 9 ∷ [])
      (record { within = omega arith; seconds_fit = omega arith; tokens_fit = omega arith })
      (ground arith) (ground arith) (omega arith) (omega arith)

allow-embed_example :
    let (b, d) = allow at_work (at_second 6) in
    (b ≡ embed (record { tokens = 2; anchor = 6; capacity = 3; rate = 2 }))
    × (d.allowed ≡ true)
    × (d.limit ≡ num 3)
    × (d.remaining ≡ num 2)
allow-embed_example = allow-embed Nano-IsExact two_of_three 6 (record {
  forward = omega arith;
  seconds_fit = omega arith;
  tokens_fit = omega arith;
  capacity_fits = omega arith;
})

allow-IsValid_example :
    let after = (allow at_work (at_second 6)).0 in
    IsValid Nano-IsOrdered after
    × (after.last_refill ≡ at_second 6)
    × (after.capacity ≡ num 3)
    × (after.refill_rate ≡ num 2)
allow-IsValid_example =
    allow-IsValid Nano-IsOrdered at_work (at_second 6) at_work-IsValid (omega arith)
