-- ===== src/Tests/Assistant.antt =====
-- Runs of the names of files and of the providers of the assistant.
use edtech_back.Base.{
  ◌≡◌, refl, true, false, ◌++◌, Option, none, some, [], ◌∷◌, pos, Text, codes, find, select, map,
  all, text_eq, contains_text, is_space, lstrip, strip, all_digits, read_from, read_nat, arith,
}
use edtech_back.Model.{Language, UploadedFile}
use edtech_back.Grades.{grade_token}
use edtech_back.AutoAssign.Filename.{is_line, parse_lesson_filename}
use edtech_back.AutoAssign.Filename.Reads.{Keyword, base_name, parse_lesson_filename-base_name}
use edtech_back.AutoAssign.Upload.{upload_all, preview_uploads}
use edtech_back.AutoAssign.Upload.Preview.{of_result, of_preview, upload_all-preview_uploads}
use edtech_back.Llm.{unavailable, raise_for_status, is_retryable}
use edtech_back.Llm.Json.{Json, Fields, is_dict, lookup_field, at_key}
use edtech_back.Llm.Stream.{
  failed, finished, Stream, is_stream_error, data_of, drop_prefix, response, stream_completions,
}
use edtech_back.Llm.Stream.Faults.{has_fault, is_fault, is_done, stream_completions-fault}
use edtech_back.Llm.Chain.{answer, refused, Provider, chain_stream}
use edtech_back.Llm.Chain.First.{
  gives_way, passes_on, has_chunk, last_failure, shown, chain_stream-first,
}
use edtech_back.Llm.Providers.{LlmSettings}
use edtech_back.Tests.Fixtures.{db_1}

-- what the runs below compute with
assistant_program : Unit {0}
unfolding find select all text_eq contains_text all_digits read_from read_nat is_line is_retryable
    raise_for_status data_of drop_prefix strip lstrip is_space is_stream_error is_dict at_key
    lookup_field has_fault is_fault is_done
assistant_program = tt

parse_lesson_filename-base_name_example :
    parse_lesson_filename
      (base_name (codes "7") Keyword.micro_bit (codes "04") (codes "Buzzer") ++ codes ".pdf")
    ≡ some (record {
      grade = pos 7;
      token = grade_token (pos 7);
      lesson_no = 4;
      title = strip (base_name (codes "7") Keyword.micro_bit (codes "04") (codes "Buzzer"));
      course = some (codes "microbit");
    })
parse_lesson_filename-base_name_example =
    parse_lesson_filename-base_name (codes "7") (codes "04") (codes "Buzzer") Keyword.micro_bit
      (omega arith) read_seven refl (omega arith) read_four one_line
  where
    read_seven : read_nat (codes "7") ≡ some 7
    read_seven = unfold read_nat in unfold all_digits in unfold read_from in refl

    read_four : read_nat (codes "04") ≡ some 4
    read_four = unfold read_nat in unfold all_digits in unfold read_from in refl

    one_line : is_line (codes "Buzzer") ≡ true
    one_line = unfold is_line in refl

abbrev file_80 : UploadedFile
file_80 = record {
  id = 80;
  filename = codes "Grade 6 lesson 3 Sound.pdf";
  storage_path = none;
  linked_lesson_id = none;
}

upload_all-preview_uploads_example :
    map of_result (upload_all db_1 (file_80 ∷ file_80 ∷ []) Language.en 1).0
    ≡ map of_preview (preview_uploads db_1 (file_80.filename ∷ file_80.filename ∷ []) Language.en 1)
upload_all-preview_uploads_example =
    upload_all-preview_uploads db_1 (file_80 ∷ file_80 ∷ []) Language.en 1

-- a parser that knows one text
abbrev overloaded : Json
overloaded =
    Json.object (Fields.field (codes "error") (Json.object Fields.no_field) Fields.no_field)

abbrev loads_error : Text → Option Json
loads_error t = some overloaded

reports : has_fault loads_error (codes "data: {}" ∷ []) ≡ true
unfolding assistant_program
reports = refl

stream_completions-fault_example :
    (stream_completions loads_error (response 200 (codes "data: {}" ∷ []) none)).ends
    ≡ failed unavailable
stream_completions-fault_example =
    stream_completions-fault loads_error 200 (codes "data: {}" ∷ []) none accepted reports
  where
    accepted : raise_for_status 200 ≡ none
    accepted = unfold raise_for_status in refl

abbrev chunk_of : Text → Stream
chunk_of t = record { chunks = Json.string t ∷ []; ends = finished }

-- a provider whose rate limit is reached, and one that answers
abbrev busy : Provider
busy = record {
  name = codes "groq";
  model = none;
  supports_vision = false;
  chat = refused (codes "rate_limit");
  chat_stream = record { chunks = []; ends = finished };
  chat_stream_vision = record { chunks = []; ends = finished };
}

abbrev ready : Provider
ready = record {
  name = codes "grok";
  model = none;
  supports_vision = false;
  chat = answer (codes "Yes");
  chat_stream = chunk_of (codes "Yes");
  chat_stream_vision = chunk_of (codes "Yes");
}

both_give_way :
    (all (λ q. gives_way q.chat) (busy ∷ ready ∷ []) ≡ true)
    × (all (λ q. passes_on q.chat_stream) (busy ∷ ready ∷ []) ≡ true)
unfolding assistant_program
both_give_way = (refl, refl)

chain_stream-first_example :
    chain_stream (busy ∷ ready ∷ [])
    ≡ shown
        (last_failure unavailable (busy ∷ ready ∷ []))
        (find (λ q. has_chunk q.chat_stream) (busy ∷ ready ∷ []))
chain_stream-first_example = chain_stream-first busy (ready ∷ []) both_give_way.1

abbrev two_keys : LlmSettings
two_keys = record {
  ai_provider = codes "openai";
  ai_fallback_providers = codes "groq, openai";
  groq_api_key = codes "g";
  xai_api_key = [];
  openai_api_key = codes "o";
  anthropic_api_key = [];
}
