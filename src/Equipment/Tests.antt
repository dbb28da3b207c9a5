-- ===== src/Equipment/Tests.antt =====
-- The theorems on the kept logins, applied to a first and a second login to one device.
use rundo_dahua_sdk_edge.Common.{ℕ, String, List, [], ◌∷◌}
use rundo_dahua_sdk_edge.Sdk.{Call, login}
use rundo_dahua_sdk_edge.Streams.{LoginResults}
use rundo_dahua_sdk_edge.Equipment.{Equipment, equipment_key}

abbrev pub ports : ℕ → String
ports _ = "37777"

abbrev pub nothing : Equipment
nothing = record { logins = []; uid = 0 }

abbrev key : String
key = equipment_key ports "10.0.0.2" 37777 "admin"

abbrev pub held : LoginResults
held = record { handle = 0; chan_num = 0; uid = 0; equipment_key = "" }

abbrev first : LoginResults
first = record { handle = 7; chan_num = 16; uid = 1; equipment_key = key }

abbrev one_login : Equipment
one_login = record { logins = (key, first) ∷ []; uid = 1 }

abbrev asked : List Call
asked = login "10.0.0.2" 37777 "admin" "secret" ∷ []
