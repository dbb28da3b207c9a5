-- ===== src/Server/Running/Tests.antt =====
-- The theorems on the life of requests, applied to a deletion and a recovery of a device.
use mathlib.Core.List.{Perm}
use rundo_dahua_sdk_edge.Common.{All, ◌≡◌, refl, List, [], ◌∷◌, String, Option, some, arith}
use rundo_dahua_sdk_edge.Common.Dict
use rundo_dahua_sdk_edge.Gateway.{
  Json, text, object, no_members, member, document, find_member, text_at, get_msg_type,
}
use rundo_dahua_sdk_edge.Server.{Server, Around}
use rundo_dahua_sdk_edge.Server.Devices.{device_delete_soft, device_delete_recover}
use rundo_dahua_sdk_edge.Server.Dispatch.{handle_msg}
use rundo_dahua_sdk_edge.Server.Running.Served.{Finishes, Reach-Ahead}
use rundo_dahua_sdk_edge.Server.Tests.{around, server}
use rundo_dahua_sdk_edge.Server.Running.{Running, Reach, Ahead}
use rundo_dahua_sdk_edge.Server.Running.Once.{messages, places, Reach-Perm}
use rundo_dahua_sdk_edge.Server.Running.Overtaken.{inserted, inserted-Reach, Reach-overtaken}

-- A message that carries its type alone.
abbrev typed : String → Option Json
typed s = some (object (member "msgType" (text s) no_members))

abbrev here : Around
here = record around { parse = typed }

abbrev recovered : Server
recovered = device_delete_recover here "DEVICE_DELETE_RECOVER" server

abbrev softened_late : Server
softened_late = device_delete_soft here "DEVICE_DELETE_SOFT" recovered

recover_first : handle_msg here "DEVICE_DELETE_RECOVER" server ≡ some recovered
unfolding handle_msg get_msg_type document text_at find_member Dict.find
recover_first = refl

soft_second : handle_msg here "DEVICE_DELETE_SOFT" recovered ≡ some softened_late
unfolding handle_msg get_msg_type document text_at find_member Dict.find
soft_second = refl

abbrev two_messages : List String
two_messages = "DEVICE_DELETE_SOFT" ∷ "DEVICE_DELETE_RECOVER" ∷ []

Reach-overtaken_example :
    (r : Running) × Reach 5 server two_messages r
    × (r.handled ≡ (here, "DEVICE_DELETE_RECOVER") ∷ (here, "DEVICE_DELETE_SOFT") ∷ [])
    × (r.server ≡ softened_late)
Reach-overtaken_example =
    Reach-overtaken 5 server recovered softened_late "DEVICE_DELETE_SOFT" "DEVICE_DELETE_RECOVER"
      here here (omega arith) recover_first soft_second

both_handled :
    (r : Running) × Reach 5 server two_messages r
    × (r.handled ≡ (here, "DEVICE_DELETE_RECOVER") ∷ (here, "DEVICE_DELETE_SOFT") ∷ [])
    × (r.server ≡ softened_late)
both_handled =
    Reach-overtaken 5 server recovered softened_late "DEVICE_DELETE_SOFT" "DEVICE_DELETE_RECOVER"
      here here (omega arith) recover_first soft_second

Reach-Perm_example : Perm (places (both_handled.0)) two_messages
Reach-Perm_example = Reach-Perm 5 server two_messages (both_handled.0) (both_handled.1)

soft_done :
    (t : Server)
    → handle_msg here "DEVICE_DELETE_SOFT" t ≡ some (device_delete_soft here "DEVICE_DELETE_SOFT" t)
unfolding handle_msg get_msg_type document text_at find_member Dict.find
soft_done t = refl

recover_done :
    (t : Server)
    → handle_msg here "DEVICE_DELETE_RECOVER" t
      ≡ some (device_delete_recover here "DEVICE_DELETE_RECOVER" t)
unfolding handle_msg get_msg_type document text_at find_member Dict.find
recover_done t = refl

-- The handlers of the two messages finish, whatever the state of the server.
finishing : All (Finishes here) two_messages
finishing = (λ t e. cc (soft_done t, e), (λ t e. cc (recover_done t, e), tt))

abbrev waiting_messages : Running
waiting_messages = inserted server "DEVICE_DELETE_SOFT" "DEVICE_DELETE_RECOVER"

Reach-Ahead_example :
    (q : Running) × Ahead 1 waiting_messages q × Perm (messages q.handled) two_messages
Reach-Ahead_example =
    Reach-Ahead 1 server two_messages here finishing (omega arith) waiting_messages
      (inserted-Reach server "DEVICE_DELETE_SOFT" "DEVICE_DELETE_RECOVER" 1)
