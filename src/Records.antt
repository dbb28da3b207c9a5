-- ===== src/Records.antt =====
-- src/sdk_wrap.cpp, `CompareTime` and `sdk_wrap::query_record_file`. The C library's time functions
-- are parameters: a time in text, as `sscanf` and `mktime` read it, and the texts that `snprintf` and
-- `put_time` print.
pub mod Clip
pub mod Tests
use rundo_dahua_sdk_edge.Common.{
  ℕ, Bool, true, false, List, [], ◌∷◌, String, Option, none, some, ◌==◌, ltb, if◌then◌else◌,
}
use rundo_dahua_sdk_edge.Sdk.{
  Sdk, Call, NetTime, query_record_file, minus_one, dhsdk_get_last_error,
}

-- `NET_RECORDFILE_INFO`, the members that are read.
pub record FileInfo : Type 0 where
  pub start_time : NetTime
  pub end_time : NetTime
  pub size : ℕ
  pub filename : String

-- The members of a `Record` that a query fills.
pub record Found : Type 0 where
  pub start_time : String
  pub end_time : String
  pub file_size : ℕ
  pub file_name : String

pub record Times : Type 0 where
  pub make_time : String → ℕ  -- the `time_t` of a text "%04d%02d%02d%02d%02d%02d"
  pub print_time : NetTime → String  -- `snprintf` with that format
  pub read_time : String → NetTime  -- `sscanf` with "%04d-%02d-%02d %02d:%02d:%02d"
  pub get_time : String → Option String  -- `get_time`, then `put_time` with "%Y%m%d%H%M%S"

-- -1 for equal times, 0 when the second is later, 1 when it is earlier.
unfoldable pub compare_time : Times → String → String → ℕ
compare_time ts a b =
    if ts.make_time b == ts.make_time a
    then minus_one
    else (if ltb (ts.make_time a) (ts.make_time b) then 0 else 1)

-- The record that the loop makes of a file.
unfoldable pub clip : Times → String → String → FileInfo → Found
clip ts temp_start temp_end file =
    let start = ts.print_time file.start_time in
    let end = ts.print_time file.end_time in
    record {
      start_time = if compare_time ts start temp_start == 0 then temp_start else start;
      end_time = if compare_time ts end temp_end == 0 then end else temp_end;
      file_size = file.size;
      file_name = file.filename;
    }

-- The loop over the files: one that starts after the end of the query is dropped.
unfoldable pub clip_all : Times → String → String → List FileInfo → List Found
clip_all ts temp_start temp_end [] = []
clip_all ts temp_start temp_end (file ∷ files) =
    let rest = clip_all ts temp_start temp_end files in
    if compare_time ts (ts.print_time file.start_time) temp_end == 1
    then rest
    else clip ts temp_start temp_end file ∷ rest

-- A query's `int`, its records, and the calls made.
pub record QueryRan : Type 0 where
  pub ret : ℕ
  pub files : List Found
  pub calls : List Call

-- `network_error` is `NET_NETWORK_ERROR`, `recorded` the files that the SDK writes, and the record of
-- a timed-out query keeps what its unset members held.
unfoldable pub query_records :
    Sdk
    → Times
    → ℕ
    → (List Call → List FileInfo)
    → Found
    → ℕ
    → ℕ
    → String
    → String
    → List Call
    → QueryRan
query_records sdk ts network_error recorded junk handle channel start end t =
    let c = query_record_file handle channel (ts.read_time start) (ts.read_time end) in
    let err = dhsdk_get_last_error sdk (c ∷ t) in
    let whole : Found = record junk { start_time = start; end_time = end } in
    elim (ts.get_time start) [
      | none ↦ record { ret = 1; files = []; calls = t }
      | some temp_start ↦ elim (ts.get_time end) [
        | none ↦ record { ret = 1; files = []; calls = t }
        | some temp_end ↦
            if sdk.accepts t c
            then record {
              ret = 0;
              files = clip_all ts temp_start temp_end (recorded (c ∷ t));
              calls = c ∷ t;
            }
            else (if network_error == err
                then record { ret = 0; files = whole ∷ []; calls = c ∷ t }
                else record { ret = err; files = []; calls = c ∷ t })
      ]
    ]
