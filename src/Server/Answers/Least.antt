-- ===== src/Server/Answers/Least.antt =====
-- What a request's handler queues in answer, at least.
use mathlib.Core.Path.{subst}
use rundo_dahua_sdk_edge.Common.{
  Each, Each-map, ap, ◌⊎◌, ℕ, ◌≤◌, ◌≡◌, refl, inl, inr, [], ◌∷◌, ◌++◌, String, arith, Bool-cases,
  length, ◌&&◌, leb, if◌then◌else◌,
}
use rundo_dahua_sdk_edge.Gateway.{get_msg_type}
use rundo_dahua_sdk_edge.Client.Send.{send_business_queue_ex}
use rundo_dahua_sdk_edge.Server.{Server, Around, send}
use rundo_dahua_sdk_edge.Server.Devices.{
  device_total_sync, confirm, device_delete, device_delete_soft, device_delete_recover,
  channel_delete_soft, channel_delete_recover,
}
use rundo_dahua_sdk_edge.Server.Dispatch.{handle_msg}
use rundo_dahua_sdk_edge.Server.Answers.{Adds, limit, handle_msg-Adds}

-- How many texts a request of a type adds in any case: one for DEVICE_TOTAL_SYNC and for the requests to
-- delete or recover a device or a channel.
unfoldable pub least : ℕ → ℕ
least n = if leb 4 n && leb n 9 then 1 else 0

-- The texts that a request added, between two bounds.
pub record Answered (m n : ℕ) (s s' : Server) : Type 0 where
  pub adds : Adds n s s'
  pub many : m ≤ length adds.texts

one-Answered :
    (m n : ℕ) (text : String) (s s' : Server)
    → m ≤ 1
    → 1 ≤ n
    → s'.client ≡ s.client
    → Answered m n s (send text s')
unfolding send send_business_queue_ex
one-Answered m n text s s' few h e = record {
  adds = record {
    texts = text ∷ [];
    behind = ap (λ c. c.business_msg_list ++ text ∷ []) e;
    few = omega arith;
    link = record {
      client_type = ap (λ x. x.client_type) e;
      republic = ap (λ x. x.republic) e;
      send_mq = ap (λ x. x.send_mq) e;
    };
  };
  many = few;
}

to_nine :
    (n : ℕ) → 4 ≤ n → n ≤ 9 → (n ≡ 4) ⊎ ((n ≡ 5) ⊎ ((n ≡ 6) ⊎ ((n ≡ 7) ⊎ ((n ≡ 8) ⊎ (n ≡ 9)))))
to_nine n lo hi = ground arith

module _ (a : Around) (msg : String) (s : Server) where
  sent-Answered :
      (text : String) (s' : Server) → s'.client ≡ s.client → Answered 1 1 s (send text s')
  sent-Answered text s' = one-Answered 1 1 text s s' (omega arith) (omega arith)

  handled-Answered :
      4 ≤ get_msg_type a.parse msg
      → get_msg_type a.parse msg ≤ 9
      → Each (Answered 1 1 s) (handle_msg a msg s)
  unfolding handle_msg device_total_sync device_delete device_delete_soft device_delete_recover
      channel_delete_soft channel_delete_recover confirm
  handled-Answered lo hi = elim (to_nine (get_msg_type a.parse msg) lo hi) [
    | inl e ↦ rw (e, handle_msg) (sent-Answered _ s refl)
    | inr (inl e) ↦ rw (e, handle_msg) (sent-Answered _ s refl)
    | inr (inr (inl e)) ↦ rw (e, handle_msg) (sent-Answered _ _ refl)
    | inr (inr (inr (inl e))) ↦ rw (e, handle_msg) (sent-Answered _ s refl)
    | inr (inr (inr (inr (inl e)))) ↦ rw (e, handle_msg) (sent-Answered _ s refl)
    | inr (inr (inr (inr (inr e)))) ↦ rw (e, handle_msg) (sent-Answered _ s refl)
  ]

  -- A request never takes a text from the list of messages, it adds its own behind the others. It adds
  -- exactly one if it is DEVICE_TOTAL_SYNC or asks to delete or recover a device or a channel, at most
  -- two if it is DEVICE_ADD, at most one if it is another request about devices or cameras, and none if
  -- it is about a stream or is not handled.
  pub handle_msg-Answered :
      let type = get_msg_type a.parse msg in
      Each (Answered (least type) (limit type) s) (handle_msg a msg s)
  unfolding least limit
  handle_msg-Answered =
      let type = get_msg_type a.parse msg in
      elim (Bool-cases (leb 4 type && leb type 9)) [
        | inl e ↦
            subst (λ (k : ℕ × ℕ). Each (Answered k.0 k.1 s) (handle_msg a msg s)) (ground arith)
              (handled-Answered (ground arith) (ground arith))
        | inr e ↦
            Each-map (Adds (limit type) s) (Answered (least type) (limit type) s)
              (handle_msg a msg s) (λ s' h. record { adds = h; many = ground arith })
              (handle_msg-Adds a msg s)
      ]
