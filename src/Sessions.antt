-- ===== src/Sessions.antt =====
-- src/PlaySession.cpp, `SessionMange`: the map from a stream id to its session. Each session object
-- is owned by one entry of the map, so the map holds the sessions themselves; what a caller does to
-- the shared object is an assignment to its entry.
use rundo_dahua_sdk_edge.Common.{
  ℕ, Bool, true, false, [], ◌∷◌, String, Option, none, some, length, ◌==◌, if◌then◌else◌,
}
use rundo_dahua_sdk_edge.Common.Dict
use rundo_dahua_sdk_edge.Common.Dict.{Dict}
use rundo_dahua_sdk_edge.Session.{PlaySession}

unfoldable pub get_play_session : String → Dict PlaySession → Option PlaySession
get_play_session key m = Dict.find key m

-- A null pointer is not stored; an entry that is there is kept.
unfoldable pub insert_play_session :
    String → Option PlaySession → Dict PlaySession → Dict PlaySession × Bool
insert_play_session key none m = (m, false)
insert_play_session key (some s) m = (Dict.insert key s m, true)

unfoldable pub del_play_session : String → Dict PlaySession → Dict PlaySession
del_play_session key m = Dict.erase key m

unfoldable pub get_play_session_count : Dict PlaySession → ℕ
get_play_session_count m = length m

-- `DisconnetPlaySession`, called when the media connection `clihandle` is lost: the loop erases the
-- entry under the iterator and then advances that iterator, which `erase` has invalidated. `none` is
-- that undefined behaviour.
unfoldable pub disconnet_play_session : ℕ → Dict PlaySession → Option (Dict PlaySession)
disconnet_play_session clihandle [] = some []
disconnet_play_session clihandle ((k, s) ∷ m) =
    let rest = disconnet_play_session clihandle m in
    if clihandle == s.media_client
    then none
    else (elim rest [ none ↦ none | some m' ↦ some ((k, s) ∷ m') ])
