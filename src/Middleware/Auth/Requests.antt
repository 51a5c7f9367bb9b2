-- ===== src/Middleware/Auth/Requests.antt =====
-- The request that internal/middleware/auth.go bills: its route, its body and its estimate in
-- tokens, with InternalTokenAuth of internal_token.go.
use ainode.Prelude.{
  ℕ, ◌-◌, Bool, not, ◌&&◌, ◌||◌, Option, none, some, String, str_eq, if◌then◌else◌, leb, ◌==◌,
  Result, ok, err,
}
use ainode.Prelude.Int.{ℤ, pos, leb_ℤ}
use ainode.Text.Strings.{◌<>◌}
use ainode.Media.{
  ChatCompletionRequest, ImageGenerationRequest, VideoGenerationRequest, at_least_one_image,
  estimate_prompt_tokens,
}
use Prim.Native.String as Native

-- strings.HasPrefix, strings.HasSuffix and strings.TrimPrefix
abbrev pub has_prefix : String → String → Bool
has_prefix s p = str_eq (Native.slice s 0 (Native.len p)) p

abbrev pub has_suffix : String → String → Bool
has_suffix s p =
    leb (Native.len p) (Native.len s)
    && str_eq (Native.slice s (Native.len s - Native.len p) (Native.len s)) p

abbrev pub trim_prefix : String → String → String
trim_prefix s p = if has_prefix s p then Native.slice s (Native.len p) (Native.len s) else s

-- InternalTokenAuth: whether the next handler is called.
unfoldable pub internal_token_auth : String → String → Bool
internal_token_auth token authorization =
    not (str_eq token "") && str_eq authorization ("Bearer " <> token)

-- The columns of GetUserByAPIKey that are read.
pub record KeyRow : Type 0 where
  pub id : ℤ
  pub user_tier : ℤ
  pub key_id : ℤ
  pub quota_limit : Option ℤ
  pub quota_used : Option ℤ

pub data Route : Type 0 where
  chat image video : Route

-- r.Body: nil, failing, or what is read of it, up to the limit, with its number of bytes.
pub data RequestBody : Type 0 where
  absent unreadable : RequestBody
  bytes : ℕ → String → RequestBody

pub record AuthRequest : Type 0 where
  pub authorization : String
  pub path : String
  pub body : RequestBody

abbrev pub max_body_size : ℕ
max_body_size = 5242880

-- The routes that are billed.
unfoldable pub route_of : String → Option Route
route_of path =
    if has_suffix path "/chat/completions" || has_suffix path "/completions"
    then some chat
    else if has_suffix path "/images/generations" || has_suffix path "/image/generations"
    then some image
    else if has_suffix path "/video/generations"
    then some video
    else none

abbrev pub request_type : Route → String
request_type chat = "chat"
request_type image = "image_generation"
request_type video = "video_generation"

abbrev pub expected_modality : Route → String
expected_modality chat = "text"
expected_modality image = "image"
expected_modality video = "video"

unfoldable pub is_allowed_modality : Route → String → Bool
is_allowed_modality route modality =
    str_eq modality (expected_modality route)
    || (str_eq (request_type route) "chat" && str_eq modality "vision")

pub record Refusal : Type 0 where
  pub status : ℕ
  pub code : String

-- A row of model_failure_logs.
pub record FailureLog : Type 0 where
  pub user_id : ℤ
  pub api_key_id : ℤ
  pub model_name : String
  pub error_code : String
  pub status : ℕ

-- json.Unmarshal into the requests, and the tokenizer of a model.
pub record Parsers : Type 0 where
  pub chat_request : String → Option ChatCompletionRequest
  pub image_request : String → Option ImageGenerationRequest
  pub video_request : String → Option VideoGenerationRequest
  pub tokenizer : String → Option (String → ℤ)

pub record ParsedRequest : Type 0 where
  pub model_name : String
  pub prompt_tokens : ℤ
  pub max_output_tokens : ℤ
  pub billing_units : ℤ

-- estimateChatPromptTokens and estimatePlainTextTokens: 10 without a tokenizer.
unfoldable pub estimate_chat_prompt_tokens : Parsers → ChatCompletionRequest → ℤ
estimate_chat_prompt_tokens P req = elim (P.tokenizer req.model) [
  | none ↦ pos 10
  | some encode ↦ estimate_prompt_tokens encode req
]

unfoldable pub estimate_plain_text_tokens : Parsers → String → String → ℤ
estimate_plain_text_tokens P model text = elim (P.tokenizer model) [
  | none ↦ pos 10
  | some encode ↦ encode text
]

abbrev pub of_chat : Parsers → ChatCompletionRequest → ParsedRequest
of_chat P c = record {
  model_name = c.model;
  prompt_tokens = estimate_chat_prompt_tokens P c;
  max_output_tokens = if leb_ℤ c.max_tokens (pos 0) then pos 4096 else c.max_tokens;
  billing_units = pos 1;
}

abbrev pub of_image : Parsers → ImageGenerationRequest → ParsedRequest
of_image P i = record {
  model_name = i.model;
  prompt_tokens = estimate_plain_text_tokens P i.model i.prompt;
  max_output_tokens = pos 0;
  billing_units = (at_least_one_image i).n;
}

abbrev pub of_video : Parsers → VideoGenerationRequest → ParsedRequest
of_video P v = record {
  model_name = v.model;
  prompt_tokens = estimate_plain_text_tokens P v.model v.prompt;
  max_output_tokens = pos 0;
  billing_units = pos 1;
}

abbrev pub parsed : {A : Type 0} → (A → ParsedRequest) → Option A → Result Refusal ParsedRequest
parsed f none = err (record { status = 400; code = "" })
parsed f (some a) = ok (f a)

unfoldable pub parse_route : Parsers → Route → String → Result Refusal ParsedRequest
parse_route P chat body = parsed (of_chat P) (P.chat_request body)
parse_route P image body = parsed (of_image P) (P.image_request body)
parse_route P video body = parsed (of_video P) (P.video_request body)

abbrev pub nothing_parsed : ParsedRequest
nothing_parsed = record {
  model_name = "";
  prompt_tokens = pos 0;
  max_output_tokens = pos 0;
  billing_units = pos 1;
}

unfoldable pub read_body : Parsers → Route → RequestBody → Result Refusal ParsedRequest
read_body P route absent = ok nothing_parsed
read_body P route unreadable = err (record { status = 400; code = "" })
read_body P route (bytes size body) =
    if size == max_body_size
    then err (record { status = 413; code = "body_too_large" })
    else parse_route P route body
