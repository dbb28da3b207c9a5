-- ===== src/Cameras/Failure.antt =====
-- `sdk_wrap::get_camera_list` and the reply that `channel_sync` makes of it.
use rundo_dahua_sdk_edge.Common.{
  ℕ, zero, suc, ◌+◌, ◌≡◌, ◌≢◌, refl, ap, Bool, false, List, [], ◌∷◌, some, ◌==◌, arith, length,
  Each,
}
use rundo_dahua_sdk_edge.Sdk.{Sdk, Call, get_channel_config, matrix_get_cameras, query_camera_state}
use rundo_dahua_sdk_edge.Streams.{LoginResults}
use rundo_dahua_sdk_edge.Platforms.{Platform}
use rundo_dahua_sdk_edge.Cameras.{
  Cameras, CameraRan, ask_all, given_states, fill, empty_list, get_camera_list,
}
use rundo_dahua_sdk_edge.Gateway.{text, integer, object, array, no_items}
use rundo_dahua_sdk_edge.Gateway.Replies.{Texts, obj, channel_entries, channel_sync_document}

length-empty_list : (n : ℕ) → length (empty_list n) ≡ n
unfolding empty_list
length-empty_list zero = refl
length-empty_list (suc n) = ap suc (length-empty_list n)

length-fill :
    (cams : Cameras) (t₁ t₂ : List Call) (i : ℕ) (bs : List Bool)
    → length (fill cams t₁ t₂ i bs) ≡ length bs
unfolding fill
length-fill cams t₁ t₂ i [] = refl
length-fill cams t₁ t₂ i (b ∷ bs) = ap suc (length-fill cams t₁ t₂ (i + 1) bs)

length-given_states :
    (cams : Cameras) (t : List Call) (i n : ℕ) → length (given_states cams t i n) ≡ n
unfolding given_states
length-given_states cams t i zero = refl
length-given_states cams t i (suc n) = ap suc (length-given_states cams t (i + 1) n)

length-ask_all :
    (sdk : Sdk) (cams : Cameras) (handle i n : ℕ) (t : List Call)
    → length (ask_all sdk cams handle i n t).0 ≡ n
unfolding ask_all
length-ask_all sdk cams handle i zero t = refl
length-ask_all sdk cams handle i (suc n) t = ap suc (length-ask_all sdk cams handle (i + 1) n _)

-- A camera list has one entry for each channel of the login, whatever the SDK answers, an error
-- included.
pub length-get_camera_list :
    (sdk : Sdk) (cams : Cameras) (login : LoginResults) (t : List Call)
    → Each (λ r. length r.list ≡ login.chan_num) (get_camera_list sdk cams login t)
unfolding get_camera_list
length-get_camera_list sdk cams login t =
    let n = login.chan_num in
    let t₁ = get_channel_config login.handle n ∷ t in
    let t₂ = matrix_get_cameras login.handle n ∷ t₁ in
    let t₃ = query_camera_state login.handle n ∷ t₂ in
    let asked = (ask_all sdk cams login.handle 0 n t₃).0 in
    let given = given_states cams t₃ 0 n in
    ground (
      arith,
      length-empty_list n,
      length-fill cams t₁ t₂ 0 given,
      length-given_states cams t₃ 0 n,
      length-fill cams t₁ t₂ 0 asked,
      length-ask_all sdk cams login.handle 0 n t₃,
    )

channel_entries_empty : (x : Texts) (p : Platform) (n : ℕ) → channel_entries x p (empty_list n) ≡ []
unfolding channel_entries empty_list
channel_entries_empty x p zero = refl
channel_entries_empty x p (suc n) = channel_entries_empty x p n

get_camera_list_failed :
    (sdk : Sdk) (cams : Cameras) (login : LoginResults) (t : List Call) (r : CameraRan)
    → get_camera_list sdk cams login t ≡ some r
    → r.ret ≢ 0
    → (r.list ≡ empty_list login.chan_num) × (login.chan_num ≢ 0)
unfolding get_camera_list
get_camera_list_failed sdk cams login t r e h = ground arith

-- When the SDK refuses the channels of a device, so that `get_camera_list` returns an error, the reply
-- of the synchronisation still has code 0 and "SUCCESS": it gives the number of channels as the total,
-- and lists none of them.
pub channel_sync_document_failed :
    (sdk : Sdk) (cams : Cameras) (login : LoginResults) (t : List Call) (r : CameraRan) (x : Texts)
    (p : Platform)
    → get_camera_list sdk cams login t ≡ some r
    → r.ret ≢ 0
    → channel_sync_document x r.list p
      ≡ object (
          obj (
            ("serialNum", text x.media_server_id)
            ∷ ("msgType", text "CHANNEL_SYNC")
            ∷ ("msgId", text p.msg_id)
            ∷ ("time", text x.time)
            ∷ ("code", integer 0)
            ∷ ("msg", text "SUCCESS")
            ∷ (
              "data",
              object (
                  obj (
                    ("total", integer login.chan_num)
                    ∷ ("channelDetailList", array no_items)
                    ∷ ("num", integer 0)
                    ∷ [])),
            )
            ∷ []))
unfolding channel_sync_document
channel_sync_document_failed sdk cams login t r x p e h =
    let (blank, some_channels) = get_camera_list_failed sdk cams login t r e h in
    let n = login.chan_num in
    let counted : (n == 0) ≡ false = ground arith in
    rw (blank, channel_entries_empty x p n, length-empty_list n, counted) refl
