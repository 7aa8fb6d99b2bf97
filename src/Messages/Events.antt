-- ===== src/Messages/Events.antt =====
-- The events that the converters of src/proxy/messages build.
use hey_proxy.Base.{ℕ, zero, suc, String, List, [], ◌∷◌}
use hey_proxy.Json.{Value, null, string}
use hey_proxy.Json.Build.{obj, nat}

abbrev pub block_start : ℕ → Value → Value
block_start i block =
    obj (("type", string "content_block_start") ∷ ("index", nat i) ∷ ("content_block", block) ∷ [])

abbrev pub block_delta : ℕ → Value → Value
block_delta i delta =
    obj (("type", string "content_block_delta") ∷ ("index", nat i) ∷ ("delta", delta) ∷ [])

abbrev pub block_stop : ℕ → Value
block_stop i = obj (("type", string "content_block_stop") ∷ ("index", nat i) ∷ [])

abbrev pub no_usage : Value
no_usage = obj (
    ("input_tokens", nat 0)
    ∷ ("output_tokens", nat 0)
    ∷ ("cache_creation_input_tokens", nat 0)
    ∷ ("cache_read_input_tokens", nat 0)
    ∷ [])

abbrev pub thinking_start : Value
thinking_start =
    obj (("type", string "thinking") ∷ ("thinking", string "") ∷ ("signature", string "") ∷ [])

abbrev pub thinking_delta : String → Value
thinking_delta text = obj (("type", string "thinking_delta") ∷ ("thinking", string text) ∷ [])

abbrev pub text_start : Value
text_start = obj (("type", string "text") ∷ ("text", string "") ∷ [])

abbrev pub text_delta : String → Value
text_delta text = obj (("type", string "text_delta") ∷ ("text", string text) ∷ [])

abbrev pub input_delta : String → Value
input_delta text = obj (("type", string "input_json_delta") ∷ ("partial_json", string text) ∷ [])

-- `for index in 0..self.blocks`
unfoldable pub block_stops : ℕ → ℕ → List Value
block_stops i zero = []
block_stops i (suc n) = block_stop i ∷ block_stops (suc i) n

abbrev pub closing : String → Value → List Value
closing reason used =
    obj (
      ("type", string "message_delta")
      ∷ ("delta", obj (("stop_reason", string reason) ∷ ("stop_sequence", null) ∷ []))
      ∷ ("usage", used)
      ∷ [])
    ∷ obj (("type", string "message_stop") ∷ [])
    ∷ []
