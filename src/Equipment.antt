-- ===== src/Equipment.antt =====
-- src/sdk_wrap.cpp, `EquipmentMgr` and `sdk_wrap::connet_equipment`: logins are kept by the address,
-- the port and the user of a device. `std::to_string` is a parameter.
pub mod Logins
pub mod Tests
use rundo_dahua_sdk_edge.Common.{
  ℕ, ◌+◌, ◌%◌, ◌^◌, Bool, true, false, List, ◌∷◌, String, Option, none, some, ◌==◌, ◌||◌, ◌&&◌, leb,
  if◌then◌else◌,
}
use Prim.Native.String.{◌++◌}
use rundo_dahua_sdk_edge.Common.Dict
use rundo_dahua_sdk_edge.Common.Dict.{Dict}
use rundo_dahua_sdk_edge.Sdk.{Sdk, Call, login}
use rundo_dahua_sdk_edge.Streams.{LoginResults}

pub record Equipment : Type 0 where
  pub logins : Dict LoginResults
  pub uid : ℕ  -- `_uid`, an int64_t

-- A login succeeds, is refused, or throws: `LoginErrMsg.at` knows only some error numbers.
pub data LoginOutcome : Type 0 where
  logged_in : Equipment → LoginResults → List Call → LoginOutcome
  refused : Equipment → LoginResults → List Call → LoginOutcome
  out_of_range : Equipment → List Call → LoginOutcome

unfoldable pub equipment_key : (ℕ → String) → String → ℕ → String → String
equipment_key to_string ip port user = ip ++ (":" ++ (to_string port ++ (":" ++ user)))

-- The keys of `LoginErrMsg`.
unfoldable pub is_login_error : ℕ → Bool
is_login_error n = (leb 1 n && leb n 13) || (n == 18)

-- The last argument is what the caller's `LoginResults` held.
unfoldable pub log_in :
    Sdk
    → (ℕ → String)
    → String
    → ℕ
    → String
    → String
    → Equipment
    → LoginResults
    → List Call
    → LoginOutcome
log_in sdk to_string ip port user pwd e held t =
    let key = equipment_key to_string ip port user in
    let c = login ip port user pwd in
    let h = sdk.opens t c in
    let u = (e.uid + 1) % 2 ^ 64 in
    let fresh : LoginResults = record {
      handle = h;
      chan_num = sdk.login_channels t c;
      uid = u;
      equipment_key = key;
    } in
    elim (Dict.find key e.logins) [
      | some l ↦ logged_in e l t
      | none ↦
          if h == 0
          then (if is_login_error (sdk.login_error t c)
              then refused e (record held { handle = 0 }) (c ∷ t)
              else out_of_range e (c ∷ t))
          else logged_in (record { logins = Dict.insert key fresh e.logins; uid = u }) fresh (c ∷ t)
    ]
