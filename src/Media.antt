-- ===== src/Media.antt =====
-- The messages of a chat request: internal/media/chat.go (NormalizeMessageParts and
-- EstimatePromptTokens), and the requests of image.go and video.go. What encoding/json makes of a
-- content is given: absent or null, a text, a list of objects, or neither.
use ainode.Prelude.{Bool, String, str_eq, if◌then◌else◌, List, [], ◌∷◌, Result, ok, err}
use ainode.Prelude.Int.{ℤ, pos, ◌+ℤ◌, leb_ℤ, int64}

-- An object of a list of parts; `input_is_valid` is that its `input` decodes to a MediaInput.
pub record ContentItem : Type 0 where
  pub type : String
  pub text : String
  pub input_is_valid : Bool

pub data RawContent : Type 0 where
  absent : RawContent
  plain : String → RawContent
  objects : List ContentItem → RawContent
  malformed : RawContent

-- The parts that are counted: a text, or an image, whose input plays no part here.
pub data MessagePart : Type 0 where
  text_part : String → MessagePart
  image_part : MessagePart

pub data ContentError : Type 0 where
  unsupported_format invalid_input_image : ContentError

abbrev prepend :
    MessagePart → Result ContentError (List MessagePart) → Result ContentError (List MessagePart)
prepend p (ok ps) = ok (p ∷ ps)
prepend p (err e) = err e

unfoldable pub normalize_items : List ContentItem → Result ContentError (List MessagePart)
normalize_items [] = ok []
normalize_items (x ∷ xs) =
    let rest = normalize_items xs in
    if str_eq x.type "text"
    then prepend (text_part x.text) rest
    else if str_eq x.type "image_url"
    then prepend image_part rest
    else if str_eq x.type "input_image"
    then (if x.input_is_valid then prepend image_part rest else err invalid_input_image)
    else rest

unfoldable pub normalize_message_parts : RawContent → Result ContentError (List MessagePart)
unfolding normalize_items
normalize_message_parts absent = ok []
normalize_message_parts (plain s) = ok (text_part s ∷ [])
normalize_message_parts (objects xs) = normalize_items xs
normalize_message_parts malformed = err unsupported_format

pub record ChatMessage : Type 0 where
  pub role : String
  pub content : RawContent

pub record ChatCompletionRequest : Type 0 where
  pub model : String
  pub messages : List ChatMessage
  pub max_tokens : ℤ

pub record ImageGenerationRequest : Type 0 where
  pub model : String
  pub prompt : String
  pub n : ℤ

pub record VideoGenerationRequest : Type 0 where
  pub model : String
  pub prompt : String

-- ParseImageGenerationRequest, after the decoding.
unfoldable pub at_least_one_image : ImageGenerationRequest → ImageGenerationRequest
at_least_one_image r = if leb_ℤ r.n (pos 0) then record r { n = pos 1 } else r

abbrev pub estimated_image_tokens : ℤ
estimated_image_tokens = pos 1024

module _ (encode : String → ℤ) where
  unfoldable pub part_tokens : MessagePart → ℤ
  part_tokens (text_part s) = encode s
  part_tokens image_part = estimated_image_tokens

  unfoldable pub parts_tokens : List MessagePart → ℤ
  unfolding part_tokens
  parts_tokens [] = pos 0
  parts_tokens (p ∷ ps) = int64 (part_tokens p +ℤ parts_tokens ps)

  -- A content that cannot be read counts for nothing but its role.
  abbrev content_tokens : Result ContentError (List MessagePart) → ℤ
  content_tokens (ok ps) = parts_tokens ps
  content_tokens (err e) = pos 0

  unfoldable pub message_tokens : ChatMessage → ℤ
  message_tokens m =
      int64 (pos 4 +ℤ encode m.role +ℤ content_tokens (normalize_message_parts m.content))

  unfoldable pub messages_tokens : List ChatMessage → ℤ
  unfolding message_tokens
  messages_tokens [] = pos 2
  messages_tokens (m ∷ ms) = int64 (message_tokens m +ℤ messages_tokens ms)

  unfoldable pub estimate_prompt_tokens : ChatCompletionRequest → ℤ
  unfolding messages_tokens
  estimate_prompt_tokens req = messages_tokens req.messages
