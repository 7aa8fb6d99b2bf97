-- ===== src/Guidance/Examples.antt =====
-- Runs of src/proxy/guidance.rs at concrete requests.
use hey_proxy.Base.{◌≡◌, refl, true, false, List, [], ◌∷◌}
use hey_proxy.Json.{Value, Fields, string, array, object, nil, cons, end, field, items}
use hey_proxy.Guidance.{message, user_message, remind, apply, present, guidance_opened}
use hey_proxy.Guidance.Reminder.{IsReminded, remind-IsReminded}
use hey_proxy.Guidance.Once.{apply-once}

abbrev task : Value
task = object (field "model" (string "m") (field "input" (string "Original task") end))

task_reminded : apply "/v1/responses/" task ≡ (
  true,
  object (
      field "model" (string "m") (
        field "input"
          (array (cons (user_message "Original task") (cons (user_message message) nil)))
          end)),
)
unfolding guidance_opened
task_reminded = refl

reminder_present : present (apply "/v1/responses" task).1 ≡ true
unfolding guidance_opened
reminder_present = refl

others_untouched : apply "/v1/realtime" task ≡ (false, task)
unfolding guidance_opened
others_untouched = refl

apply-once_example :
    apply "/v1/responses" (apply "/v1/responses" task).1 ≡ (false, (apply "/v1/responses" task).1)
apply-once_example = apply-once "/v1/responses" task

abbrev history : List Value
history = user_message message ∷ user_message "more" ∷ []

abbrev chat : Fields
chat = field "messages" (array (items history)) end

remind-IsReminded_example :
    (gs : Fields) × (((remind "messages" history chat).1 ≡ object gs)
      × IsReminded "messages" history chat gs)
remind-IsReminded_example = remind-IsReminded "messages" history chat refl
