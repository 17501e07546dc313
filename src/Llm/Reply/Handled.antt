-- ===== src/Llm/Reply/Handled.antt =====
-- The whole answers of the providers, and how they fail.
use edtech_back.Base.{
  ℕ, ◌≡◌, refl, Bool, true, false, Option, none, some, Text, codes, text_eq, contains_text,
  nonempty, strip, arith, Bool-cases, Option-cases, inl, inr,
}
use edtech_back.Llm.{Kind, unavailable, raise_for_status, is_retryable, TransportFailure}
use edtech_back.Llm.Json.{Json}
use edtech_back.Llm.Chain.{Reply, answer, refused}
use edtech_back.Llm.Reply.{
  FetchedBody, no_body, body, reply_of, chat_with, chat_openai, chat_anthropic,
}

-- the kinds that the code raises
retryable :
    (is_retryable (codes "auth") ≡ true)
    × (is_retryable (codes "rate_limit") ≡ true)
    × (is_retryable unavailable ≡ true)
    × (is_retryable (codes "bad_request") ≡ true)
    × (is_retryable (codes "timeout") ≡ true)
unfolding is_retryable contains_text text_eq
retryable = (refl, refl, refl, refl, refl)

raise_for_status-is_retryable :
    (code : ℕ) {kind : Kind} → raise_for_status code ≡ some kind → is_retryable kind ≡ true
unfolding raise_for_status
raise_for_status-is_retryable code {kind} h = ground (arith, retryable)

-- an answer with content, or a failure that the chain goes on from
abbrev pub is_handled : Reply → Bool
is_handled (answer text) = nonempty text
is_handled (refused kind) = is_retryable kind

reply_of-is_handled : (text : Option Text) → is_handled (reply_of text) ≡ true
unfolding reply_of
reply_of-is_handled none = retryable.2
reply_of-is_handled (some text) = elim (Bool-cases (nonempty (strip text))) [
  | inl full ↦ rw (full, is_handled) full
  | inr blank ↦ rw (blank, is_handled) retryable.2
]

module _ (json_loads : Text → Option Json) where
  chat_with-is_handled :
      (read : Json → Option Text) (fetched : FetchedBody)
      → is_handled (chat_with json_loads read fetched) ≡ true
  unfolding chat_with
  chat_with-is_handled read (no_body TransportFailure.timed_out) = retryable.4
  chat_with-is_handled read (no_body TransportFailure.broke) = retryable.2
  chat_with-is_handled read (body code content) = elim (Option-cases (raise_for_status code)) [
    | inr (kind, raised) ↦
        rw (raised, chat_with, is_handled) (raise_for_status-is_retryable code raised)
    | inl accepted ↦ elim (Option-cases (json_loads content)) [
      | inl unread ↦ rw (accepted, unread, chat_with, is_handled) retryable.2
      | inr (obj, e) ↦ rw (accepted, e, chat_with, is_handled) (reply_of-is_handled (read obj))
    ]
  ]

  -- Whatever the network and the body of the response are, a provider that is asked for a whole
  -- answer either gives a text that is not blank or fails in a way that the chain goes on from.
  pub chat-is_handled :
      (use_responses_api : Bool) (fetched : FetchedBody)
      → (is_handled (chat_openai json_loads use_responses_api fetched) ≡ true)
        × (is_handled (chat_anthropic json_loads fetched) ≡ true)
  unfolding chat_openai chat_anthropic
  chat-is_handled true fetched = (chat_with-is_handled _ fetched, chat_with-is_handled _ fetched)
  chat-is_handled false fetched = (chat_with-is_handled _ fetched, chat_with-is_handled _ fetched)
