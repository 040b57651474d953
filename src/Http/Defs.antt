-- ===== src/Http/Defs.antt =====
-- What the handlers of internal/httpapi write, and what they use of strconv, encoding/json
-- and net/http.
use token_bucket_rate_limite.Prelude.{ℕ, String, [], ◌⊎◌, ◌≡◌}
use token_bucket_rate_limite.Prelude.Map.{GoMap, insert}
use token_bucket_rate_limite.Limiter.Config.{Config}
use token_bucket_rate_limite.Limiter.Stats.{ClientStats}

pub record Response : Type 0 where
  pub status : ℕ
  pub headers : GoMap String
  pub body : String

-- The status of a response for which WriteHeader is not called.
abbrev pub no_response : Response
no_response = record { status = 200; headers = []; body = "" }

-- `w.Header().Set(name, value)`
unfoldable pub with_header : Response → String → String → Response
unfolding insert
with_header w name value = record w { headers = insert name value w.headers }

pub record Codec (E F : Type 0) : Type 0 where
  -- strconv.FormatFloat(f, 'f', -1, 64) and strconv.FormatFloat(f, 'f', 0, 64)
  pub format : F → String
  pub format_whole : F → String
  -- json.NewDecoder(r.Body).Decode into a Config, with the error's text, and the two Encodes
  pub decode_config : String → String ⊎ Config F
  pub encode_config : Config F → String
  pub encode_stats : GoMap ClientStats → String
  -- an error's text
  pub error_text : E → String
  -- `http.Error(w, message, status)` on a response without headers
  pub http_error : String → ℕ → Response

-- http.Error documents the status of its response.
pub record IsCodec {E F : Type 0} (codec : Codec E F) : Type 0 where
  pub http_error-status :
      (message : String) (status : ℕ) → (codec.http_error message status).status ≡ status
