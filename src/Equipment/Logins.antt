-- ===== src/Equipment/Logins.antt =====
-- What the kept logins promise.
use rundo_dahua_sdk_edge.Common.{
  some, ℕ, ◌+◌, ◌%◌, ◌^◌, ◌≤◌, ◌<◌, ◌≡◌, ◌≢◌, refl, List, [], ◌∷◌, String, ◌==◌, arith, eq_refl,
  Option-cases, inl, inr, Bool-cases,
}
use rundo_dahua_sdk_edge.Common.Dict
use rundo_dahua_sdk_edge.Common.Dict.{Dict, Entries, find-insert, insert-Entries}
use rundo_dahua_sdk_edge.Sdk.{Sdk, Call, login}
use rundo_dahua_sdk_edge.Streams.{LoginResults}
use rundo_dahua_sdk_edge.Equipment.{
  Equipment, LoginOutcome, logged_in, refused, out_of_range, equipment_key, is_login_error, log_in,
}

-- A kept login has a handle, its own key, and a number that was given out.
abbrev pub IsKept : ℕ → String → LoginResults → Type 0
IsKept u k l = (l.handle ≢ 0) × (l.equipment_key ≡ k) × (1 ≤ l.uid) × (l.uid ≤ u)

abbrev pub IsValid : Equipment → Type 0
IsValid e = Entries (IsKept e.uid) e.logins

-- The state that an outcome leaves.
abbrev pub after : LoginOutcome → Equipment
after (logged_in e _ _) = e
after (refused e _ _) = e
after (out_of_range e _) = e

IsKept-mono :
    (u v : ℕ) (m : Dict LoginResults) → u ≤ v → Entries (IsKept u) m → Entries (IsKept v) m
IsKept-mono u v [] h a = tt
IsKept-mono u v ((k, l) ∷ m) h a = ((a.0.0, a.0.1, a.0.2, omega arith), IsKept-mono u v m h a.1)

-- Until the 64-bit counter wraps, a login, whatever its outcome, keeps every stored login with a live
-- handle, under its own key, and with a number between 1 and the counter.
pub log_in-IsValid :
    (sdk : Sdk) (to_string : ℕ → String) (ip : String) (port : ℕ) (user pwd : String)
    (e : Equipment) (held : LoginResults) (t : List Call)
    → IsValid e
    → e.uid + 1 < 2 ^ 64
    → IsValid (after (log_in sdk to_string ip port user pwd e held t))
unfolding log_in
log_in-IsValid sdk to_string ip port user pwd e held t v room =
    let key = equipment_key to_string ip port user in
    let c = login ip port user pwd in
    let u = (e.uid + 1) % 2 ^ 64 in
    let fresh : LoginResults = record {
      handle = sdk.opens t c;
      chan_num = sdk.login_channels t c;
      uid = u;
      equipment_key = key;
    } in
    let older = IsKept-mono e.uid u e.logins (omega arith) v in
    elim (Option-cases (Dict.find key e.logins)) [
      | inr (l, f) ↦ rw (f, log_in) v
      | inl f ↦ elim (Bool-cases (sdk.opens t c == 0)) [
        | inl z ↦ elim (Bool-cases (is_login_error (sdk.login_error t c))) [
          | inl k ↦ rw (f, z, k, log_in) v
          | inr k ↦ rw (f, z, k, log_in) v
        ]
        | inr z ↦
            rw (f, z, log_in)
              (insert-Entries (IsKept u) key fresh e.logins
                (λ q. absurd (ground arith), refl, omega arith, omega arith) older)
      ]
    ]

-- What a login that succeeded keeps, and what a kept login gives.
pub log_in-kept :
    (sdk : Sdk) (to_string : ℕ → String) (ip : String) (port : ℕ) (user pwd : String)
    (e e' : Equipment) (held l : LoginResults) (t t' : List Call)
    → log_in sdk to_string ip port user pwd e held t ≡ logged_in e' l t'
    → Dict.find (equipment_key to_string ip port user) e'.logins ≡ some l
unfolding log_in
log_in-kept sdk to_string ip port user pwd e e' held l t t' h =
    let key = equipment_key to_string ip port user in
    let c = login ip port user pwd in
    let u = (e.uid + 1) % 2 ^ 64 in
    let fresh : LoginResults = record {
      handle = sdk.opens t c;
      chan_num = sdk.login_channels t c;
      uid = u;
      equipment_key = key;
    } in
    ground (arith, find-insert key key fresh e.logins, eq_refl key)

pub log_in-known :
    (sdk : Sdk) (to_string : ℕ → String) (ip : String) (port : ℕ) (user pwd : String)
    (e : Equipment) (held l : LoginResults) (t : List Call)
    → Dict.find (equipment_key to_string ip port user) e.logins ≡ some l
    → log_in sdk to_string ip port user pwd e held t ≡ logged_in e l t
unfolding log_in
log_in-known sdk to_string ip port user pwd e held l t h = ground (arith, h)
