-- ===== src/Server/Tests.antt =====
-- The theorems on the handlers, applied to a gateway with one device.
use rundo_dahua_sdk_edge.Common.{
  ◌≡◌, refl, true, false, List, [], ◌∷◌, String, Option, none, some, str_eq, if◌then◌else◌, Each,
  arith,
}
use rundo_dahua_sdk_edge.Common.Dict
use rundo_dahua_sdk_edge.Session.{new_session}
use rundo_dahua_sdk_edge.Session.Tests.{agreeable, memory}
use rundo_dahua_sdk_edge.Streams.{LoginResults}
use rundo_dahua_sdk_edge.Streams.Tests.{one_session, as_before, floats, live, recorded}
use rundo_dahua_sdk_edge.Streams.Invariant as Sessions
use rundo_dahua_sdk_edge.Platforms.{Platform}
use rundo_dahua_sdk_edge.Platforms.Tests.{door, one_device, known, known-IsSynced}
use rundo_dahua_sdk_edge.Equipment.{equipment_key, log_in}
use rundo_dahua_sdk_edge.Equipment.Tests.{ports, nothing, held}
use rundo_dahua_sdk_edge.Ptz.Tests.{codes}
use rundo_dahua_sdk_edge.Records.Tests.{hours, morning}
use rundo_dahua_sdk_edge.Cameras.{Cameras}
use rundo_dahua_sdk_edge.Gateway.Requests.{pars_device_add, add_data}
use rundo_dahua_sdk_edge.Gateway.{
  Json, Members, text, object, no_members, member, document, find_member, object_at, text_at,
  text_or, int_at, get_msg_type,
}
use rundo_dahua_sdk_edge.Gateway.Replies.{Texts}
use rundo_dahua_sdk_edge.Client.Tests.{gateway, gateway-IsServed}
use rundo_dahua_sdk_edge.Server.{Server, Around, send, connect, with_login}
use rundo_dahua_sdk_edge.Server.Devices.{device_add, device_total_sync}
use rundo_dahua_sdk_edge.Server.Dispatch.{handle_msg, handle_all}
use rundo_dahua_sdk_edge.Server.Invariant.{IsValid}
use rundo_dahua_sdk_edge.Server.Invariant.Requests.{handle_all-IsValid}
use rundo_dahua_sdk_edge.Server.Answers.{limit}
use rundo_dahua_sdk_edge.Server.Answers.Least.{Answered, least, handle_msg-Answered}
use rundo_dahua_sdk_edge.Mq.Tests.{broker}
use rundo_dahua_sdk_edge.Server.Replies.{Replied, limits, leasts, handle_all-Replied}
use rundo_dahua_sdk_edge.Server.Admission.{device_add-known}

abbrev data_members : Members
data_members = member "deviceId" (text "door") (member "streamId" (text "other") no_members)

abbrev request : Members
request = member "msgId" (text "5") (member "data" (object data_members) no_members)

-- A request to add the device of an address.
abbrev addition : Members
addition = member "msgType" (text "DEVICE_ADD") (
    member "data"
      (object (
        member "dataMap"
          (object (member "ip" (text "10.0.0.9") (member "username" (text "admin") no_members)))
          no_members))
      no_members)

abbrev parsed : String → Option Json
parsed s = if str_eq s "add" then some (object addition) else some (object request)

abbrev pub texts : Texts
texts = record {
  write = λ d. "{}";
  to_string = ports;
  to_utf = λ s. s;
  show_time = λ s. s;
  media_server_id = "g1";
  heartbeat_timeout = 30;
  time = "2022-01-01 00:00:00";
  time_t = "2022-01-01T00:00:00";
  millis = 1640995200000;
  local_ip = "10.0.0.1";
}

abbrev pub no_cameras : Cameras
no_cameras = record {
  name = λ t i. "";
  ip = λ t i. "";
  port = λ t i. 0;
  username = λ t i. "";
  password = λ t i. "";
  connected = λ t i. false;
  online = λ t. 0;
  presets = λ t. [];
}

abbrev pub around : Around
around = record {
  parse = parsed;
  atoi = λ s. 0;
  texts = texts;
  later = texts;
  stale = "";
  codec = one_device;
  can_open = true;
  sdk = agreeable;
  cameras = no_cameras;
  code = codes;
  times = hours;
  network_error = 7;
  recorded = λ t. morning;
  read_time = as_before;
  float = floats;
  to_float = λ n. none;
  fresh = record door { device_id = "new" };
  fresh_play = live;
  fresh_record = recorded;
  fresh_ptz = record {
    msg_type = "";
    msg_id = "";
    device_id = "";
    ptz = record { channel = 0; contrl_cmd = 0; contrl_param = 0; dw_stop = false };
  };
  fresh_preset = record {
    msg_type = "";
    msg_id = "";
    device_id = "";
    channel = 0;
    index = 0;
    name = "";
  };
  fresh_found = record { start_time = ""; end_time = ""; file_size = 0; file_name = "" };
  fresh_speed = 0;
  held = held;
  junk = memory;
}

abbrev pub server : Server
server = record {
  equipment = nothing;
  store = known;
  sessions = one_session;
  client = gateway;
  temp_ptz_cmd = 0;
  msg_id = 1;
  calls = [];
}

one_session-IsValid : Sessions.IsValid one_session
unfolding Dict.find new_session
one_session-IsValid = record { keyed = (refl, tt); distinct = (refl, tt) }

pub server-IsValid : IsValid server
server-IsValid = record { sessions = one_session-IsValid; synced = known-IsSynced; logins = tt }

abbrev two_requests : List (Around × String)
two_requests = (around, "add") ∷ (around, "other") ∷ []

handle_all-IsValid_example : Each IsValid (handle_all two_requests server)
handle_all-IsValid_example = handle_all-IsValid two_requests server (omega arith) server-IsValid

handle_msg-Answered_example :
    Each
      (Answered (least (get_msg_type parsed "add")) (limit (get_msg_type parsed "add")) server)
      (handle_msg around "add" server)
handle_msg-Answered_example = handle_msg-Answered around "add" server

handle_all-Replied_example :
    Each
      (Replied (leasts two_requests) (limits two_requests) broker [] server)
      (handle_all two_requests server)
handle_all-Replied_example = handle_all-Replied two_requests server broker [] gateway-IsServed

abbrev added : Platform
added = pars_device_add parsed around.atoi "add" around.fresh

abbrev new_login : LoginResults
new_login = record {
  handle = 7;
  chan_num = 16;
  uid = 1;
  equipment_key = equipment_key ports "10.0.0.9" 37777 "admin";
}

added_login : connect around added server ≡ (some (0, new_login), (connect around added server).1)
unfolding connect log_in Dict.find pars_device_add add_data document object_at text_or text_at
    int_at find_member
added_login = refl

added_named : str_eq added.ip "" ≡ false
unfolding pars_device_add add_data document object_at text_or text_at int_at find_member
added_named = refl

added_free : Dict.find added.device_id known.platform_map ≡ none
unfolding Dict.find pars_device_add add_data document object_at text_or text_at int_at find_member
added_free = refl

abbrev use_handle : LoginResults → Server → Server
use_handle login s = record s { temp_ptz_cmd = login.handle }

-- The device is added, and a full list of the devices is asked for.
abbrev later : Server
later = device_total_sync around "other" (device_add around "add" server)

device_add-known_example :
    with_login around added.device_id use_handle later ≡ use_handle new_login later
unfolding device_total_sync send
device_add-known_example =
    device_add-known around around "add" server (connect around added server).1 later new_login
      use_handle added_named added_free added_login refl refl refl
