-- ===== src/Server/Chat.antt =====
-- src/server.cpp, serve_chat: the prompt that reaches serve_completions and the text that comes back.
use llm_cpp.Prelude.{◌≡◌, Bool, [], ◌++◌, if◌then◌else◌, nat_eq, list_eq, int_eq, codes}
use llm_cpp.Text.{find_after, strip_prefix}
use llm_cpp.Tokenizer.{Bytes}
use llm_cpp.Server.Json.{skip_blanks, raw_value, extract_raw, marked_string, json_get_string}
use llm_cpp.Server.Strings.{received, scan_string-json_escape}
use llm_cpp.Server.Http.{copied_fields, chat_request, completion_body}

-- serve_completions reads from the request that serve_chat makes the prompt, as `received`
-- describes it, whatever else the body holds.
pub prompt-chat_request :
    (body prompt : Bytes) (stream : Bool)
    → json_get_string (chat_request body prompt stream) (codes "prompt") [] ≡ received prompt
unfolding json_get_string extract_raw find_after strip_prefix skip_blanks raw_value marked_string
    chat_request
prompt-chat_request body prompt stream =
    scan_string-json_escape prompt
      (copied_fields body ++ ((if stream then codes ",\"stream\":true" else []) ++ codes "}"))

-- serve_chat reads the generated text from the answer of serve_completions.
pub text-completion_body :
    (text : Bytes) → json_get_string (completion_body text) (codes "text") [] ≡ received text
unfolding json_get_string extract_raw find_after strip_prefix skip_blanks raw_value marked_string
    completion_body
text-completion_body text =
    scan_string-json_escape text (codes ",\"index\":0,\"finish_reason\":\"length\"}]}")
