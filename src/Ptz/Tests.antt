-- ===== src/Ptz/Tests.antt =====
-- The codes that the tests of the handlers take for the commands of `ptz_control`.
use rundo_dahua_sdk_edge.Common.{ℕ}
use rundo_dahua_sdk_edge.Ptz.{Command}

abbrev pub codes : Command → ℕ
codes _ = 40
