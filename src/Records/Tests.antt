-- ===== src/Records/Tests.antt =====
-- The theorems on a query's records, applied to three files.
use rundo_dahua_sdk_edge.Common.{ℕ, zero, suc, some, List, [], ◌∷◌, str_eq, if◌then◌else◌}
use rundo_dahua_sdk_edge.Sdk.{NetTime}
use rundo_dahua_sdk_edge.Records.{FileInfo, Times}

abbrev at_hour : ℕ → NetTime
at_hour h = record { year = 2022; month = 1; day = 1; hour = h; minute = 0; second = 0 }

-- Times by their hour.
abbrev pub hours : Times
hours = record {
  make_time =
      λ s. if str_eq s "8" then 8 else if str_eq s "9" then 9 else if str_eq s "10" then 10 else 11;
  print_time = λ t. elim t.hour [ zero ↦ "8" | suc _ ↦ "11" ];
  read_time = λ s. at_hour 0;
  get_time = λ s. some s;
}

abbrev pub morning : List FileInfo
morning =
    record { start_time = at_hour 0; end_time = at_hour 1; size = 5; filename = "a" }
    ∷ record { start_time = at_hour 1; end_time = at_hour 1; size = 6; filename = "b" }
    ∷ []
