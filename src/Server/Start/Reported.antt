-- ===== src/Server/Start/Reported.antt =====
-- What the report of the devices leaves.
use rundo_dahua_sdk_edge.Common.{
  ℕ, suc, ◌+◌, ◌≡◌, refl, ◌∙◌, List, [], ◌∷◌, String, some, arith, length, length-append, All,
  eq_iff, if◌then◌else◌, Bool-cases, inl, inr,
}
use rundo_dahua_sdk_edge.Common.Dict
use rundo_dahua_sdk_edge.Common.Dict.{Dict, find-assign}
use rundo_dahua_sdk_edge.Platforms.{Platform}
use rundo_dahua_sdk_edge.Client.Send.{send_business_queue_ex}
use rundo_dahua_sdk_edge.Gateway.Reports.{device_add_state}
use rundo_dahua_sdk_edge.Server.{Server, Around, send}
use rundo_dahua_sdk_edge.Server.Start.{report_one, report}

-- How many devices are not soft-deleted.
abbrev pub alive : List Platform → ℕ
alive [] = 0
alive (p ∷ ps) = let rest = alive ps in if p.soft_del then rest else suc rest

report_one-held :
    (a : Around) (p : Platform) (s : Server) (k : String)
    → Dict.find p.device_id s.store.platform_map ≡ some p
    → let s' = report_one a p s in
      (length s'.client.business_msg_list ≡ length s.client.business_msg_list + 1)
      × (s'.msg_id ≡ s.msg_id + 1)
      × (Dict.find k s'.store.platform_map ≡ Dict.find k s.store.platform_map)
unfolding report_one send send_business_queue_ex device_add_state
report_one-held a p s k h = (
  length-append s.client.business_msg_list (_ ∷ []),
  omega arith,
  ground (arith, find-assign p.device_id k p s.store.platform_map, eq_iff p.device_id k),
)

-- What a lookup finds is what it found before, for every device.
still-held :
    (a : Around) (p : Platform) (s : Server) (ps : List Platform)
    → Dict.find p.device_id s.store.platform_map ≡ some p
    → All (λ q. Dict.find q.device_id s.store.platform_map ≡ some q) ps
    → All (λ q. Dict.find q.device_id (report_one a p s).store.platform_map ≡ some q) ps
still-held a p s [] h all = tt
still-held a p s (q ∷ ps) h all =
    ((report_one-held a p s q.device_id h).2 ∙ all.0, still-held a p s ps h all.1)

-- A report of devices, each of which the map holds under its id, queues one text for each that is not
-- soft-deleted, counts them, and leaves every lookup in the map as it was.
pub report-alive :
    (a : Around) (ps : List Platform) (s : Server) (k : String)
    → All (λ p. Dict.find p.device_id s.store.platform_map ≡ some p) ps
    → let s' = report a ps s in
      (length s'.client.business_msg_list ≡ length s.client.business_msg_list + alive ps)
      × (s'.msg_id ≡ s.msg_id + alive ps)
      × (Dict.find k s'.store.platform_map ≡ Dict.find k s.store.platform_map)
unfolding report
report-alive a [] s k h = (omega arith, omega arith, refl)
report-alive a (p ∷ ps) s k h = elim (Bool-cases p.soft_del) [
  | inl e ↦ ground (arith, report-alive a ps s k h.1)
  | inr e ↦
      let one = report_one-held a p s k h.0 in
      ground (arith, one, report-alive a ps (report_one a p s) k (still-held a p s ps h.0 h.1))
]
