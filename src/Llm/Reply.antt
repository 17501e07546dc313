-- ===== src/Llm/Reply.antt =====
-- The whole answers: `chat` of the three kinds of provider, on the body of a response. Each exception
-- of reading a body is caught there, as an unreadable reply.
use edtech_back.Base.{
  ℕ, Bool, true, false, ◌&&◌, ◌||◌, Option, none, some, List, [], ◌∷◌, ◌++◌, Text, codes, nonempty,
  strip, if◌then◌else◌,
}
use edtech_back.Llm.{Kind, unavailable, raise_for_status, TransportFailure, transport_error}
use edtech_back.Llm.Json.{Json, Items, Fields, at_key, at_start, get_field, or_null, is_string}
use edtech_back.Llm.Stream.{◌>>=◌}
use edtech_back.Llm.Chain.{Reply, answer, refused}
pub mod Handled

-- what the network gives for a question that is not streamed
pub data FetchedBody : Type 0 where
  no_body : TransportFailure → FetchedBody
  body : ℕ → Text → FetchedBody

-- the text of a reply, stripped, if it has one
unfoldable pub reply_of : Option Text → Reply
reply_of none = refused unavailable
reply_of (some text) =
    let stripped = strip text in if nonempty stripped then answer stripped else refused unavailable

abbrev pub string_of : Option Json → Option Text
string_of (some (Json.string s)) = some s
string_of _ = none

-- `["choices"][0]["message"]["content"]`
unfoldable pub completion_text : Json → Option Text
completion_text obj = string_of (
    at_key (codes "choices") obj
    >>= at_start
    >>= at_key (codes "message")
    >>= at_key (codes "content"))

-- the text of two parts, if both have one
abbrev pub join_texts : Option Text → Option Text → Option Text
join_texts (some a) (some b) = some (a ++ b)
join_texts _ _ = none

-- `block.get("text", "")` of a dict
unfoldable pub text_of : Json → Option Text
text_of block = elim (at_key (codes "text") block) [
  | none ↦ some []
  | some text ↦ string_of (some text)
]

-- the texts of the blocks that are dicts
unfoldable pub blocks_text : Items → Option Text
blocks_text Items.no_item = some []
blocks_text (Items.item (Json.object fs) blocks) =
    join_texts (text_of (Json.object fs)) (blocks_text blocks)
blocks_text (Items.item _ blocks) = blocks_text blocks

-- `["content"]` of the Messages API
unfoldable pub message_text : Json → Option Text
message_text obj = elim (at_key (codes "content") obj) [
  | some (Json.array blocks) ↦ blocks_text blocks
  | _ ↦ none
]

-- what a `for` goes through; the characters of a string and the keys of a dict have no `get`
unfoldable pub items_of : Json → Option Items
items_of (Json.array items) = some items
items_of (Json.string s) = if nonempty s then none else some Items.no_item
items_of (Json.object Fields.no_field) = some Items.no_item
items_of _ = none

-- the output text of the parts of an item
unfoldable pub parts_text : Items → Option Text
parts_text Items.no_item = some []
parts_text (Items.item part parts) = elim (get_field (codes "type") part) [
  | none ↦ none
  | some kind ↦
      if is_string (codes "output_text") kind
      then join_texts (text_of part) (parts_text parts)
      else parts_text parts
]

-- `item.get("content", [])`
unfoldable pub content_of : Json → Option Items
content_of (Json.object fs) = elim (at_key (codes "content") (Json.object fs)) [
  | none ↦ some Items.no_item
  | some content ↦ items_of content
]
content_of _ = none

unfoldable pub outputs_text : Items → Option Text
outputs_text Items.no_item = some []
outputs_text (Items.item output outputs) = elim (content_of output) [
  | none ↦ none
  | some parts ↦ join_texts (parts_text parts) (outputs_text outputs)
]

-- `["output"]` of the Responses API
unfoldable pub response_text : Json → Option Text
response_text obj = elim (at_key (codes "output") obj) [
  | none ↦ none
  | some output ↦ elim (items_of output) [ none ↦ none | some outputs ↦ outputs_text outputs ]
]

module _ (json_loads : Text → Option Json) where
  unfoldable pub chat_with : (Json → Option Text) → FetchedBody → Reply
  chat_with read (no_body failure) = refused (transport_error failure)
  chat_with read (body code content) = elim (raise_for_status code) [
    | some kind ↦ refused kind
    | none ↦ elim (json_loads content) [
      | none ↦ refused unavailable
      | some obj ↦ reply_of (read obj)
    ]
  ]

  -- `OpenAICompatProvider.chat`, by way of the Responses API or not
  unfoldable pub chat_openai : Bool → FetchedBody → Reply
  chat_openai use_responses_api fetched =
      if use_responses_api
      then chat_with response_text fetched
      else chat_with completion_text fetched

  -- `AnthropicProvider.chat`
  unfoldable pub chat_anthropic : FetchedBody → Reply
  chat_anthropic = chat_with message_text
