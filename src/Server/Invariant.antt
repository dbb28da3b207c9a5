-- ===== src/Server/Invariant.antt =====
-- A server whose sessions, devices and logins are well formed, and what a login keeps of it.
pub mod Handlers
pub mod Requests
use rundo_dahua_sdk_edge.Common.{
  ℕ, ◌+◌, ◌^◌, ◌≤◌, ◌<◌, ◌≡◌, refl, true, false, List, [], ◌∷◌, String, Option, none, some, arith,
  Option-cases, inl, inr, Bool-cases, length, ◌>>=◌,
}
use rundo_dahua_sdk_edge.Sdk.{Call}
use rundo_dahua_sdk_edge.Streams.{LoginResults}
use rundo_dahua_sdk_edge.Streams.Invariant as Sessions
use rundo_dahua_sdk_edge.Platforms.{Platform, get_platform}
use rundo_dahua_sdk_edge.Platforms.Synced.{IsSynced, add_platform-IsSynced, del_platform-IsSynced}
use rundo_dahua_sdk_edge.Equipment.{log_in, logged_in, refused, out_of_range}
use rundo_dahua_sdk_edge.Equipment.Logins as Logins
use rundo_dahua_sdk_edge.Server.{Server, Around, send, connect, with_login}

pub record IsValid (s : Server) : Type 0 where
  pub sessions : Sessions.IsValid s.sessions
  pub synced : IsSynced s.store
  pub logins : Logins.IsValid s.equipment

-- A valid server that has given out at most `u` login numbers.
abbrev pub Within : ℕ → Server → Type 0
Within u s = IsValid s × (s.equipment.uid ≤ u)

connect-equipment :
    (a : Around) (p : Platform) (s : Server)
    → let o =
        log_in a.sdk a.texts.to_string p.ip p.port p.username p.password s.equipment a.held
          s.calls in
      let s₁ = (connect a p s).1 in
      (s₁.equipment ≡ Logins.after o) × (s₁.store ≡ s.store) × (s₁.sessions ≡ s.sessions)
unfolding connect
connect-equipment a p s = ground arith

log_in-uid :
    (a : Around) (p : Platform) (u : ℕ) (s : Server)
    → u + 1 < 2 ^ 64
    → s.equipment.uid ≤ u
    → (connect a p s).1.equipment.uid ≤ u + 1
unfolding connect log_in
log_in-uid a p u s room h = ground arith

pub connect-Within :
    (a : Around) (p : Platform) (u : ℕ) (s : Server)
    → u + 1 < 2 ^ 64
    → Within u s
    → Within (u + 1) (connect a p s).1
connect-Within a p u s room v =
    let (e, st, m) = connect-equipment a p s in
    let l =
      Logins.log_in-IsValid a.sdk a.texts.to_string p.ip p.port p.username p.password s.equipment
        a.held s.calls v.0.logins (omega arith) in
    (
      record { sessions = rw m v.0.sessions; synced = rw st v.0.synced; logins = rw e l },
      log_in-uid a p u s room v.1,
    )

-- A request that begins with a login keeps what its rest keeps.
pub with_login-Within :
    (a : Around) (id : String) (rest : LoginResults → Server → Server) (u : ℕ) (s : Server)
    → u + 1 < 2 ^ 64
    → ((login : LoginResults) (r : Server) → Within (u + 1) r → Within (u + 1) (rest login r))
    → Within u s
    → Within (u + 1) (with_login a id rest s)
unfolding with_login
with_login-Within a id rest u s room keeps v = elim (Option-cases (get_platform id s.store)) [
  | inl e ↦ rw (e, with_login) (keeps a.held s (v.0, omega arith))
  | inr (p, e) ↦
      let w = connect-Within a p u s room v in
      elim (Option-cases (connect a p s).0) [
        | inl n ↦ rw (e, n, with_login) w
        | inr ((ret, login), n) ↦ rw (e, n, with_login) (keeps login (connect a p s).1 w)
      ]
]
