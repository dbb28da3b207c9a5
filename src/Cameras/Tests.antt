-- ===== src/Cameras/Tests.antt =====
-- The theorems on camera lists, applied to a device of four channels whose SDK refuses every call.
use rundo_dahua_sdk_edge.Common.{◌≡◌, refl, false, [], ◌∷◌, some, arith}
use rundo_dahua_sdk_edge.Sdk.{Sdk, get_channel_config, dhsdk_get_last_error}
use rundo_dahua_sdk_edge.Session.Tests.{agreeable}
use rundo_dahua_sdk_edge.Streams.{LoginResults}
use rundo_dahua_sdk_edge.Platforms.Tests.{door}
use rundo_dahua_sdk_edge.Cameras.{CameraRan, get_camera_list, empty_list}
use rundo_dahua_sdk_edge.Cameras.Failure.{channel_sync_document_failed}
use rundo_dahua_sdk_edge.Gateway.{text, integer, object, array, no_items}
use rundo_dahua_sdk_edge.Gateway.Replies.{obj, channel_sync_document}
use rundo_dahua_sdk_edge.Server.Tests.{texts, no_cameras}

abbrev refusing : Sdk
refusing = record agreeable { accepts = λ t c. false; get_last_error = λ t. 9 }

abbrev four : LoginResults
four = record { handle = 7; chan_num = 4; uid = 1; equipment_key = "four" }

abbrev refused : CameraRan
refused = record { ret = 9; list = empty_list 4; calls = get_channel_config 7 4 ∷ [] }

was_refused : get_camera_list refusing no_cameras four [] ≡ some refused
unfolding get_camera_list dhsdk_get_last_error
was_refused = refl

channel_sync_document_failed_example :
    channel_sync_document texts refused.list door
    ≡ object (
        obj (
          ("serialNum", text "g1")
          ∷ ("msgType", text "CHANNEL_SYNC")
          ∷ ("msgId", text "1")
          ∷ ("time", text "2022-01-01 00:00:00")
          ∷ ("code", integer 0)
          ∷ ("msg", text "SUCCESS")
          ∷ (
            "data",
            object (
                obj (
                  ("total", integer 4)
                  ∷ ("channelDetailList", array no_items)
                  ∷ ("num", integer 0)
                  ∷ [])),
          )
          ∷ []))
channel_sync_document_failed_example =
    channel_sync_document_failed refusing no_cameras four [] refused texts door was_refused
      (λ e. ground arith)
