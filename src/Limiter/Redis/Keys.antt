-- ===== src/Limiter/Redis/Keys.antt =====
-- The keys of internal/limiter/redisstore.go.
use Prim.Native.String.{◌++◌ as append, count}
use text.Mathlib.TextLemmas.{append_cancel_left, append_inj, append_assoc}
use token_bucket_rate_limite.Prelude.{◌≡◌, ◌≢◌, String, refl, sym, ◌∙◌, arith, eq_iff}
use token_bucket_rate_limite.Limiter.Redis.Store.{state_key, config_key, stats_key}

differ : (p q s t : String) → count p ≡ count q → p ≢ q → append p s ≢ append q t
differ p q s t same distinct e = distinct (append_inj e same).0

-- Two clients never share a state, a config or a count, and no client's key of one kind is a
-- client's key of another kind, whatever the clients are called.
pub keys_separate :
    (a b : String)
    → (state_key a ≢ config_key b)
      × (state_key a ≢ stats_key b)
      × (config_key a ≢ stats_key b)
      × ((state_key a ≡ state_key b) → a ≡ b)
      × ((config_key a ≡ config_key b) → a ≡ b)
      × ((stats_key a ≡ stats_key b) → a ≡ b)
unfolding state_key config_key stats_key
keys_separate a b = (
  λ e.
      differ "ratelimit:s" "ratelimit:c" (append "tate:" a) (append "onfig:" b) refl
        (ground (arith, eq_iff "ratelimit:s" "ratelimit:c"))
        (sym (append_assoc "ratelimit:s" "tate:" a) ∙ e ∙ append_assoc "ratelimit:c" "onfig:" b),
  differ "ratelimit:state:" "ratelimit:stats:" a b refl
      (ground (arith, eq_iff "ratelimit:state:" "ratelimit:stats:")),
  λ e.
      differ "ratelimit:c" "ratelimit:s" (append "onfig:" a) (append "tats:" b) refl
        (ground (arith, eq_iff "ratelimit:c" "ratelimit:s"))
        (sym (append_assoc "ratelimit:c" "onfig:" a) ∙ e ∙ append_assoc "ratelimit:s" "tats:" b),
  append_cancel_left "ratelimit:state:" a b,
  append_cancel_left "ratelimit:config:" a b,
  append_cancel_left "ratelimit:stats:" a b,
)
