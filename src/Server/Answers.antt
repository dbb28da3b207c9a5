-- ===== src/Server/Answers.antt =====
-- What a request's handler queues in answer, at most.
pub mod Least
use mathlib.Core.List.{append_assoc, append-nil}
use mathlib.Core.Path.{subst}
use rundo_dahua_sdk_edge.Common.{
  Each, bind-Each, ap, sym, ◌∙◌, ℕ, zero, suc, ◌≤◌, ◌≡◌, refl, List, [], ◌∷◌, ◌++◌, String, Option,
  some, arith, Option-cases, inl, inr, Bool-cases, length, ◌==◌, ◌>>=◌, ◌||◌, ◌&&◌, leb, str_eq,
  if◌then◌else◌,
}
use rundo_dahua_sdk_edge.Streams
use rundo_dahua_sdk_edge.Streams.{LoginResults, Outcome}
use rundo_dahua_sdk_edge.Platforms.{Platform, get_platform}
use rundo_dahua_sdk_edge.Cameras.{get_camera_list}
use rundo_dahua_sdk_edge.Gateway.{get_msg_type}
use rundo_dahua_sdk_edge.Gateway.Media.{
  pars_ptz_control, pars_ptz_preset, pars_channel_play, pars_channel_record_info,
  pars_channel_playback,
}
use rundo_dahua_sdk_edge.Gateway.Reports.{device_add_result, device_add_state}
use rundo_dahua_sdk_edge.Gateway.Requests.{pars_stream_id, pars_record_speed, pars_device_add}
use rundo_dahua_sdk_edge.Client.{Client}
use rundo_dahua_sdk_edge.Client.Send.{send_business_queue_ex}
use rundo_dahua_sdk_edge.Server.{Server, Around, send, connect, with_login}
use rundo_dahua_sdk_edge.Server.Devices.{
  named, channel_sync, admit, device_add, device_total_sync, confirm, device_delete_soft,
}
use rundo_dahua_sdk_edge.Server.Media.{
  channel_ptz_control, channel_ptz_preset, channel_record_info, channel_play, channel_playback, put,
  channel_stop_play, device_record_pause, device_record_resume, device_record_speed,
}
use rundo_dahua_sdk_edge.Server.Dispatch.{Is, handle_msg, handle_msg-elim}

-- What the sending of business messages starts from, besides the list, is the same.
pub record SameLink (c c' : Client) : Type 0 where
  pub client_type : c'.client_type ≡ c.client_type
  pub republic : c'.republic ≡ c.republic
  pub send_mq : c'.send_mq ≡ c.send_mq

-- The texts that a request added to the list of messages: at most `n`, behind those that were there.
pub record Adds (n : ℕ) (s s' : Server) : Type 0 where
  pub texts : List String
  pub behind : s'.client.business_msg_list ≡ s.client.business_msg_list ++ texts
  pub few : length texts ≤ n
  pub link : SameLink s.client s'.client

-- How many texts a request of a type may add: two for DEVICE_ADD, one for the requests about devices
-- and cameras, none for those about streams and those that are not handled.
unfoldable pub limit : ℕ → ℕ
limit n = if n == 2 then 2 else (if (leb 3 n && leb n 11) || (n == 14) then 1 else 0)

connect-client : (a : Around) (p : Platform) (s : Server) → (connect a p s).1.client ≡ s.client
unfolding connect
connect-client a p s = ground arith

same-link : (c c' : Client) → c' ≡ c → SameLink c c'
same-link c c' e = record {
  client_type = ap (λ x. x.client_type) e;
  republic = ap (λ x. x.republic) e;
  send_mq = ap (λ x. x.send_mq) e;
}

same-Adds : (n : ℕ) (s s' : Server) → s'.client ≡ s.client → Adds n s s'
same-Adds n s s' e = record {
  texts = [];
  behind = ap (λ c. c.business_msg_list) e ∙ sym (append-nil s.client.business_msg_list);
  few = omega arith;
  link = same-link s.client s'.client e;
}

send-Adds :
    (n : ℕ) (text : String) (s s' : Server) → 1 ≤ n → s'.client ≡ s.client → Adds n s (send text s')
unfolding send send_business_queue_ex
send-Adds n text s s' h e = record {
  texts = text ∷ [];
  behind = ap (λ c. c.business_msg_list ++ text ∷ []) e;
  few = omega arith;
  link = record {
    client_type = ap (λ x. x.client_type) e;
    republic = ap (λ x. x.republic) e;
    send_mq = ap (λ x. x.send_mq) e;
  };
}

with_login-Adds :
    (a : Around) (id : String) (rest : LoginResults → Server → Server) (n : ℕ) (s : Server)
    → ((login : LoginResults) (r : Server) → r.client ≡ s.client → Adds n s (rest login r))
    → Adds n s (with_login a id rest s)
unfolding with_login
with_login-Adds a id rest n s h = elim (Option-cases (get_platform id s.store)) [
  | inl e ↦ rw (e, with_login) (h a.held s refl)
  | inr (p, e) ↦
      let same = connect-client a p s in
      elim (Option-cases (connect a p s).0) [
        | inl f ↦ rw (e, f, with_login) (same-Adds n s _ same)
        | inr ((ret, login), f) ↦ rw (e, f, with_login) (h login (connect a p s).1 same)
      ]
]

module _ (a : Around) (msg : String) (s : Server) where
  channel_sync-Adds : Adds 1 s (channel_sync a msg s)
  unfolding channel_sync
  channel_sync-Adds = with_login-Adds a (named a msg).device_id _ 1 s (λ login r same.
      elim (Option-cases (get_camera_list a.sdk a.cameras login r.calls)) [
        | inl e ↦ rw e (same-Adds 1 s r same)
        | inr (c, e) ↦ rw e (send-Adds 1 _ s _ (omega arith) same)
      ])

  admit-Adds : (p : Platform) (r : Server) → r.client ≡ s.client → Adds 2 s (admit a p r)
  unfolding admit send send_business_queue_ex
  admit-Adds p r same =
      let first = device_add_result a.texts p in
      let second = (device_add_state a.later p r.msg_id).0 in
      let e = append_assoc r.client.business_msg_list (first ∷ []) (second ∷ []) in
      record {
        texts = first ∷ second ∷ [];
        behind = e ∙ ap (λ c. c.business_msg_list ++ first ∷ second ∷ []) same;
        few = omega arith;
        link = record {
          client_type = ap (λ x. x.client_type) same;
          republic = ap (λ x. x.republic) same;
          send_mq = ap (λ x. x.send_mq) same;
        };
      }

  device_add-Adds : Adds 2 s (device_add a msg s)
  unfolding device_add
  device_add-Adds =
      let p = pars_device_add a.parse a.atoi msg a.fresh in
      let same = connect-client a p s in
      elim (Bool-cases (str_eq p.ip "")) [
        | inl b ↦ rw (b, device_add) (same-Adds 2 s s refl)
        | inr b ↦ elim (Option-cases (connect a p s).0) [
          | inl e ↦ rw (b, e, device_add) (same-Adds 2 s _ same)
          | inr ((zero, l), e) ↦ rw (b, e, device_add) (admit-Adds _ _ same)
          | inr ((suc n, l), e) ↦ rw (b, e, device_add) (send-Adds 2 _ s _ (omega arith) same)
        ]
      ]

  channel_ptz_control-Adds : Each (Adds 1 s) (channel_ptz_control a msg s)
  unfolding channel_ptz_control
  channel_ptz_control-Adds =
      bind-Each (Adds 1 s) (pars_ptz_control a.parse a.atoi msg a.fresh_ptz) _
        (λ r. with_login-Adds a r.device_id _ 1 s (λ login q. send-Adds 1 _ s _ (omega arith)))

  channel_ptz_preset-Adds : Each (Adds 1 s) (channel_ptz_preset a msg s)
  unfolding channel_ptz_preset
  channel_ptz_preset-Adds =
      bind-Each (Adds 1 s) (pars_ptz_preset a.parse a.atoi msg a.fresh_preset) _
        (λ p. with_login-Adds a p.device_id _ 1 s (λ login q. send-Adds 1 _ s _ (omega arith)))

  channel_record_info-Adds : Each (Adds 1 s) (channel_record_info a msg s)
  unfolding channel_record_info
  channel_record_info-Adds =
      bind-Each (Adds 1 s) (pars_channel_record_info a.parse a.atoi msg a.fresh_record) _
        (λ r. with_login-Adds a r.device_id _ 1 s (λ login q. send-Adds 1 _ s _ (omega arith)))

  channel_play-Adds : Each (Adds 0 s) (channel_play a msg s)
  unfolding channel_play put
  channel_play-Adds =
      bind-Each (Adds 0 s) (pars_channel_play a.parse a.atoi msg a.fresh_play) _
        (λ p. with_login-Adds a p.device_id _ 0 s (λ login q. same-Adds 0 s _))

  channel_playback-Adds : Each (Adds 0 s) (channel_playback a msg s)
  unfolding channel_playback put
  channel_playback-Adds =
      bind-Each (Adds 0 s) (pars_channel_playback a.parse a.atoi msg a.fresh_record) _
        (λ p. with_login-Adds a p.device_id _ 0 s (λ login q. same-Adds 0 s _))

  stream-Adds :
      {A : Type 0} (o : Option A) (f : A → Outcome)
      → Each (Adds 0 s) (o >>= λ r. some (put (f r) s))
  unfolding put
  stream-Adds o f = bind-Each (Adds 0 s) o _ (λ r. same-Adds 0 s _ refl)

  device_total_sync-Adds : Adds 1 s (device_total_sync a msg s)
  unfolding device_total_sync
  device_total_sync-Adds = send-Adds 1 _ s s (omega arith) refl

  device_delete_soft-Adds : Adds 1 s (device_delete_soft a msg s)
  unfolding device_delete_soft confirm
  device_delete_soft-Adds = send-Adds 1 _ s _ (omega arith) refl

  limit-Adds :
      (n : ℕ) (o : Option Server)
      → Is a msg n
      → Each (Adds (limit n) s) o
      → Each (Adds (limit (get_msg_type a.parse msg)) s) o
  limit-Adds n o i w =
      let e : n ≡ get_msg_type a.parse msg = ground arith in
      subst (λ m. Each (Adds (limit m) s) o) e w

  -- A request only adds to the list of messages, and no more than its type allows.
  pub handle_msg-Adds : Each (Adds (limit (get_msg_type a.parse msg)) s) (handle_msg a msg s)
  unfolding limit confirm channel_stop_play put device_record_pause device_record_resume
      device_record_speed
  handle_msg-Adds =
      let m = limit (get_msg_type a.parse msg) in
      handle_msg-elim (Each (Adds m s)) a msg s
        (λ i. limit-Adds 2 (some (device_add a msg s)) i device_add-Adds)
        (λ i. limit-Adds 3 (some (channel_sync a msg s)) i channel_sync-Adds)
        (λ i. limit-Adds 4 (some (device_total_sync a msg s)) i device_total_sync-Adds)
        (λ n type lo hi i.
          let one : 1 ≤ limit n = ground arith in
          limit-Adds n (some (confirm a type msg s)) i (send-Adds (limit n) _ s s one refl))
        (λ i. limit-Adds 6 (some (device_delete_soft a msg s)) i device_delete_soft-Adds)
        (λ i. limit-Adds 10 _ i channel_ptz_control-Adds)
        (λ i. limit-Adds 11 _ i channel_ptz_preset-Adds) (λ i. limit-Adds 13 _ i channel_play-Adds)
        (λ i. limit-Adds 14 _ i channel_record_info-Adds)
        (λ i. limit-Adds 15 _ i channel_playback-Adds)
        (λ i.
          limit-Adds 16 (some (channel_stop_play a msg s)) i
            (same-Adds 0 s (channel_stop_play a msg s) refl))
        (λ i. limit-Adds 17 _ i (
          stream-Adds (pars_stream_id a.parse msg)
            (λ k. Streams.device_record_pause a.sdk k s.sessions s.calls)))
        (λ i. limit-Adds 18 _ i (
          stream-Adds (pars_stream_id a.parse msg)
            (λ k. Streams.device_record_resume a.sdk k s.sessions s.calls)))
        (λ i. limit-Adds 19 _ i (
          stream-Adds (pars_record_speed a.parse a.to_float a.fresh_speed msg)
            (λ (x, k). Streams.device_record_speed a.sdk a.float k x s.sessions s.calls)))
        (same-Adds m s s refl)
