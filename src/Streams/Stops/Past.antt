-- ===== src/Streams/Stops/Past.antt =====
-- The handles that the parts of a stop have passed.
use rundo_dahua_sdk_edge.Common.{ℕ, ◌≡◌, refl, false, ◌==◌, Bool-cases, inl, inr, ◌⊎◌, arith}
use rundo_dahua_sdk_edge.Sdk.{Sdk, ms_disconnect}
use rundo_dahua_sdk_edge.Session.{PlaySession}
use rundo_dahua_sdk_edge.Session.Stop.{IsIdle}
use rundo_dahua_sdk_edge.Streams.Stops.{
  Handle, of_record, of_real, of_download, handle, reset, Stage, asks, found, seeks, tests, stops,
  resets, hangs, closes, clears, erases, returned, Shared, after, seek, onward, test, stop, hang_up,
  close, advance,
}

-- The handles that a stop has passed are closed.
abbrev pub IsPast : Stage → PlaySession → Type 0
IsPast asks s = Unit {0}
IsPast found s = Unit {0}
IsPast (seeks of_record) s = Unit {0}
IsPast (seeks of_download) s = s.record_play_handle ≡ 0
IsPast (seeks of_real) s = (s.record_play_handle ≡ 0) × (s.download_handle ≡ 0)
IsPast (tests of_record ret) s = Unit {0}
IsPast (stops of_record ret) s = Unit {0}
IsPast (stops of_real ret) s = s.record_play_handle ≡ 0
IsPast (stops of_download ret) s = (s.record_play_handle ≡ 0) × (s.real_play_handle ≡ 0)
IsPast (resets of_record ret) s = Unit {0}
IsPast (tests of_real ret) s = s.record_play_handle ≡ 0
IsPast (resets of_real ret) s = s.record_play_handle ≡ 0
IsPast (tests of_download ret) s = (s.record_play_handle ≡ 0) × (s.real_play_handle ≡ 0)
IsPast (resets of_download ret) s = (s.record_play_handle ≡ 0) × (s.real_play_handle ≡ 0)
IsPast (hangs ret) s = IsIdle s
IsPast (closes ret) s = IsIdle s
IsPast (clears ret) s = IsIdle s
IsPast (erases ret) s = IsIdle s
IsPast (returned ret) s = IsIdle s

-- A handle that is closed stays closed.
pub record Keeps (s s' : PlaySession) : Type 0 where
  pub on_record : s.record_play_handle ≡ 0 → s'.record_play_handle ≡ 0
  pub on_real : s.real_play_handle ≡ 0 → s'.real_play_handle ≡ 0
  pub on_download : s.download_handle ≡ 0 → s'.download_handle ≡ 0

pub Keeps-IsPast : (a : Stage) (s s' : PlaySession) → Keeps s s' → IsPast a s → IsPast a s'
Keeps-IsPast asks s s' k p = tt
Keeps-IsPast found s s' k p = tt
Keeps-IsPast (seeks of_record) s s' k p = tt
Keeps-IsPast (seeks of_download) s s' k p = k.on_record p
Keeps-IsPast (seeks of_real) s s' k p = (k.on_record p.0, k.on_download p.1)
Keeps-IsPast (tests of_record ret) s s' k p = tt
Keeps-IsPast (stops of_record ret) s s' k p = tt
Keeps-IsPast (stops of_real ret) s s' k p = k.on_record p
Keeps-IsPast (stops of_download ret) s s' k p = (k.on_record p.0, k.on_real p.1)
Keeps-IsPast (resets of_record ret) s s' k p = tt
Keeps-IsPast (tests of_real ret) s s' k p = k.on_record p
Keeps-IsPast (resets of_real ret) s s' k p = k.on_record p
Keeps-IsPast (tests of_download ret) s s' k p = (k.on_record p.0, k.on_real p.1)
Keeps-IsPast (resets of_download ret) s s' k p = (k.on_record p.0, k.on_real p.1)
Keeps-IsPast (hangs ret) s s' k p = (k.on_record p.0, k.on_real p.1, k.on_download p.2)
Keeps-IsPast (closes ret) s s' k p = (k.on_record p.0, k.on_real p.1, k.on_download p.2)
Keeps-IsPast (clears ret) s s' k p = (k.on_record p.0, k.on_real p.1, k.on_download p.2)
Keeps-IsPast (erases ret) s s' k p = (k.on_record p.0, k.on_real p.1, k.on_download p.2)
Keeps-IsPast (returned ret) s s' k p = (k.on_record p.0, k.on_real p.1, k.on_download p.2)

same-Keeps : (s s' : PlaySession) → s' ≡ s → Keeps s s'
same-Keeps s s' e = record {
  on_record = λ z. ground arith;
  on_real = λ z. ground arith;
  on_download = λ z. ground arith;
}

pub advance-Keeps :
    (sdk : Sdk) (a : Stage) (w : Shared) → Keeps w.session (advance sdk a w).shared.session
unfolding advance seek test stop hang_up close reset
advance-Keeps sdk asks w = same-Keeps w.session _ refl
advance-Keeps sdk found w = record { on_record = λ e. e; on_real = λ e. e; on_download = λ e. e }
advance-Keeps sdk (seeks h) w = same-Keeps w.session _ refl
advance-Keeps sdk (tests h ret) w = same-Keeps w.session _ refl
advance-Keeps sdk (stops h ret) w = same-Keeps w.session _ refl
advance-Keeps sdk (resets of_record ret) w = record {
  on_record = λ e. refl;
  on_real = λ e. e;
  on_download = λ e. e;
}
advance-Keeps sdk (resets of_real ret) w = record {
  on_record = λ e. e;
  on_real = λ e. refl;
  on_download = λ e. e;
}
advance-Keeps sdk (resets of_download ret) w = record {
  on_record = λ e. e;
  on_real = λ e. e;
  on_download = λ e. refl;
}
advance-Keeps sdk (hangs ret) w = same-Keeps w.session _ refl
advance-Keeps sdk (closes ret) w = same-Keeps w.session _ refl
advance-Keeps sdk (clears ret) w = record {
  on_record = λ e. e;
  on_real = λ e. e;
  on_download = λ e. e;
}
advance-Keeps sdk (erases ret) w = same-Keeps w.session _ refl
advance-Keeps sdk (returned ret) w = same-Keeps w.session _ refl

-- The session has left the map only if it is stopped.
abbrev pub Gone : Shared → Type 0
Gone w = w.in_map ≡ false → IsIdle w.session

seek-IsPast :
    (h : Handle) (w : Shared)
    → IsPast (seeks h) w.session
    → IsPast (seek h w).stage (seek h w).shared.session
unfolding seek onward handle
seek-IsPast of_record w p = elim (Bool-cases (w.session.record_play_handle == 0)) [
  | inl e ↦ rw (e, seek) (ground arith)
  | inr e ↦ rw (e, seek) tt
]
seek-IsPast of_download w p = elim (Bool-cases (w.session.download_handle == 0)) [
  | inl e ↦ rw (e, seek) (p, ground arith)
  | inr e ↦ rw (e, seek) tt
]
seek-IsPast of_real w p = elim (Bool-cases (w.session.real_play_handle == 0)) [
  | inl e ↦ rw (e, seek) (p.0, ground arith, p.1)
  | inr e ↦ rw (e, seek) tt
]

after-IsPast :
    (h : Handle) (ret : ℕ) (s : PlaySession)
    → IsPast (tests h ret) s
    → handle h s ≡ 0
    → IsPast (after h ret) s
unfolding after handle
after-IsPast of_record ret s p e = e
after-IsPast of_real ret s p e = (p, e)
after-IsPast of_download ret s p e = (p.0, p.1, e)

stops-IsPast :
    (h : Handle) (ret n : ℕ) (s : PlaySession) → IsPast (tests h ret) s → IsPast (stops h n) s
stops-IsPast of_record ret n s p = tt
stops-IsPast of_real ret n s p = p
stops-IsPast of_download ret n s p = p

resets-IsPast :
    (h : Handle) (ret n : ℕ) (s : PlaySession) → IsPast (stops h ret) s → IsPast (resets h n) s
resets-IsPast of_record ret n s p = tt
resets-IsPast of_real ret n s p = p
resets-IsPast of_download ret n s p = p

test-IsPast :
    (h : Handle) (ret : ℕ) (w : Shared)
    → IsPast (tests h ret) w.session
    → IsPast (test h ret w).stage (test h ret w).shared.session
unfolding test
test-IsPast h ret w p = elim (Bool-cases (handle h w.session == 0)) [
  | inl e ↦ rw (e, test) (after-IsPast h ret w.session p (ground arith))
  | inr e ↦ rw (e, test) (stops-IsPast h ret ret w.session p)
]

reset-IsPast :
    (h : Handle) (ret : ℕ) (s : PlaySession)
    → IsPast (resets h ret) s
    → IsPast (after h ret) (reset h s)
unfolding after reset
reset-IsPast of_record ret s p = refl
reset-IsPast of_real ret s p = (p, refl)
reset-IsPast of_download ret s p = (p.0, p.1, refl)

hang_up-IsPast :
    (ret : ℕ) (w : Shared)
    → IsIdle w.session
    → IsPast (hang_up ret w).stage (hang_up ret w).shared.session
unfolding hang_up
hang_up-IsPast ret w p = elim (Bool-cases (w.session.media_client == 0)) [
  | inl e ↦ rw (e, hang_up) p
  | inr e ↦ rw (e, hang_up) p
]

close-IsPast :
    (sdk : Sdk) (ret : ℕ) (w : Shared)
    → IsIdle w.session
    → IsPast (close sdk ret w).stage (close sdk ret w).shared.session
unfolding close
close-IsPast sdk ret w p =
    elim (Bool-cases (sdk.code w.calls (ms_disconnect w.session.media_client) == 0)) [
      | inl e ↦ rw (e, close) p
      | inr e ↦ rw (e, close) p
    ]

pub advance-IsPast :
    (sdk : Sdk) (a : Stage) (w : Shared)
    → Gone w
    → IsPast a w.session
    → IsPast (advance sdk a w).stage (advance sdk a w).shared.session
unfolding advance stop
advance-IsPast sdk asks w g p = elim (Bool-cases w.in_map) [
  | inl e ↦ rw (e, advance) tt
  | inr e ↦ rw (e, advance) (g e)
]
advance-IsPast sdk found w g p = tt
advance-IsPast sdk (seeks h) w g p = seek-IsPast h w p
advance-IsPast sdk (tests h ret) w g p = test-IsPast h ret w p
advance-IsPast sdk (stops h ret) w g p = resets-IsPast h ret _ w.session p
advance-IsPast sdk (resets h ret) w g p = reset-IsPast h ret w.session p
advance-IsPast sdk (hangs ret) w g p = hang_up-IsPast ret w p
advance-IsPast sdk (closes ret) w g p = close-IsPast sdk ret w p
advance-IsPast sdk (clears ret) w g p = p
advance-IsPast sdk (erases ret) w g p = p
advance-IsPast sdk (returned ret) w g p = p

advance-in_map :
    (sdk : Sdk) (a : Stage) (w : Shared)
    → IsPast a w.session
    → (advance sdk a w).shared.in_map ≡ false
    → (w.in_map ≡ false) ⊎ IsIdle w.session
unfolding advance seek test stop hang_up close
advance-in_map sdk asks w p e = inl e
advance-in_map sdk found w p e = inl e
advance-in_map sdk (seeks h) w p e = inl e
advance-in_map sdk (tests h ret) w p e = inl e
advance-in_map sdk (stops h ret) w p e = inl e
advance-in_map sdk (resets h ret) w p e = inl e
advance-in_map sdk (hangs ret) w p e = inl e
advance-in_map sdk (closes ret) w p e = inl e
advance-in_map sdk (clears ret) w p e = inl e
advance-in_map sdk (erases ret) w p e = inr p
advance-in_map sdk (returned ret) w p e = inl e

Keeps-IsIdle : (s s' : PlaySession) → Keeps s s' → IsIdle s → IsIdle s'
Keeps-IsIdle s s' k i = (k.on_record i.0, k.on_real i.1, k.on_download i.2)

pub advance-Gone :
    (sdk : Sdk) (a : Stage) (w : Shared)
    → Gone w
    → IsPast a w.session
    → Gone (advance sdk a w).shared
advance-Gone sdk a w g p e =
    let keeps = Keeps-IsIdle w.session _ (advance-Keeps sdk a w) in
    elim (advance-in_map sdk a w p e) [ inl out ↦ keeps (g out) | inr idle ↦ keeps idle ]
