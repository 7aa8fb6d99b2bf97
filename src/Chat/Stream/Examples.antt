-- ===== src/Chat/Stream/Examples.antt =====
-- A chat stream with one call, whose arguments come with the end of the response, and its tests.
use hey_proxy.Base.{ℕ, true, false, some, none, List, [], ◌∷◌, ◌≡◌, refl, ok, get_elem?}
use hey_proxy.Base.Text.{strip_prefix}
use hey_proxy.Base.Maps.{find_key, put_key}
use hey_proxy.Json.{Value, string}
use hey_proxy.Json.Build.{obj, list}
use hey_proxy.Chat.Response.{finish_reason}
use hey_proxy.Chat.Deltas.{
  State, new, chunk, retain, send, arguments_of, arguments, tool_delta, arguments_delta,
}
use hey_proxy.Chat.Stream.{event, begun, by_kind, complete, items, item_of, tool, open_tool, begin}
use hey_proxy.Chat.Client.{Call, hear_all}
use hey_proxy.Chat.Stream.Calls.{Agrees}
use hey_proxy.Chat.Stream.Complete.{event-Agrees}
use hey_proxy.Chat.Stream.Hears.{event-hears_calls, arguments_in}

abbrev flat_len : Value → ℕ
flat_len v = 10

abbrev call : Value
call = obj (
    ("type", string "function_call")
    ∷ ("call_id", string "c1")
    ∷ ("name", string "look")
    ∷ ("arguments", string "{}")
    ∷ [])

abbrev added : Value
added = obj (("type", string "response.output_item.added") ∷ ("item", call) ∷ [])

abbrev completed : Value
completed = obj (
    ("type", string "response.completed")
    ∷ ("response", obj (("status", string "completed") ∷ ("output", list (call ∷ [])) ∷ []))
    ∷ [])

abbrev fresh : State
fresh = new "chatcmpl-1" 7 "opus" false false

abbrev opened : State
opened = record fresh { started = true; tools = (0, (0, call, "")) ∷ []; retained = 10 }

abbrev opened_chunks : List Value
opened_chunks =
    chunk opened (obj (("role", string "assistant") ∷ ("content", string "") ∷ [])) none
    ∷ chunk opened (tool_delta 0 call) none
    ∷ []

abbrev ended : State
ended = record opened { over = true; tools = (0, (0, call, "{}")) ∷ []; retained = 12 }

abbrev ended_chunks : List Value
ended_chunks =
    chunk opened (arguments_delta 0 "{}") none ∷ chunk opened (obj []) (some "tool_calls") ∷ []

added_taken : event flat_len added fresh ≡ ok (opened, opened_chunks)
unfolding event begun by_kind item_of tool open_tool send retain chunk begin find_key put_key
added_taken = refl

completed_taken : event flat_len completed opened ≡ ok (ended, ended_chunks)
unfolding event begun by_kind complete items item_of tool open_tool arguments arguments_of send
    retain chunk begin find_key put_key strip_prefix finish_reason
completed_taken = refl

fresh-Agrees : Agrees fresh.tools []
unfolding find_key
fresh-Agrees = record { told = λ key t h. cc; distinct = λ key other t u h g e. cc; counted = refl }

opened-Agrees : Agrees opened.tools (hear_all opened_chunks [])
opened-Agrees = event-Agrees flat_len added fresh opened opened_chunks [] fresh-Agrees added_taken

event-Agrees_example : Agrees ended.tools (hear_all ended_chunks (hear_all opened_chunks []))
event-Agrees_example =
    event-Agrees flat_len completed opened ended ended_chunks (hear_all opened_chunks [])
      opened-Agrees completed_taken

event-hears_calls_example :
    (n : ℕ) × (c : Call) × (get_elem? (hear_all ended_chunks (hear_all opened_chunks [])) n
      ≡ some c)
    × (c.arguments ≡ arguments_in call)
event-hears_calls_example =
    event-hears_calls flat_len completed call (call ∷ []) true 0 opened ended ended_chunks
      (hear_all opened_chunks []) opened-Agrees refl refl refl refl refl completed_taken
