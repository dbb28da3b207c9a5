-- ===== src/Records/Clip.antt =====
-- The times that the records of a query cover.
use rundo_dahua_sdk_edge.Common.{
  Bool, ◌&&◌, ◌||◌, ℕ, suc, refl, ◌≡◌, ◌≤◌, false, List, [], ◌∷◌, String, ◌==◌, leb, arith, length,
  All, if◌then◌else◌, Bool-cases, inl, inr,
}
use rundo_dahua_sdk_edge.Records.{FileInfo, Found, Times, compare_time, clip, clip_all}

-- A record that lies between two times: it starts neither before the first nor after the second, and
-- does not end after the second.
abbrev pub IsWithin : Times → String → String → Found → Type 0
IsWithin ts a b f =
    (ts.make_time a ≤ ts.make_time f.start_time)
    × (ts.make_time f.start_time ≤ ts.make_time b)
    × (ts.make_time f.end_time ≤ ts.make_time b)

clip-IsWithin :
    (ts : Times) (a b : String) (file : FileInfo)
    → ts.make_time a ≤ ts.make_time b
    → (compare_time ts (ts.print_time file.start_time) b == 1) ≡ false
    → IsWithin ts a b (clip ts a b file)
unfolding clip compare_time
clip-IsWithin ts a b file h e = ground arith

-- Every record of a query lies within the query's interval, if the interval does not end before it
-- starts.
pub clip_all-IsWithin :
    (ts : Times) (a b : String) (files : List FileInfo)
    → ts.make_time a ≤ ts.make_time b
    → All (IsWithin ts a b) (clip_all ts a b files)
unfolding clip_all
clip_all-IsWithin ts a b [] h = tt
clip_all-IsWithin ts a b (file ∷ files) h =
    elim (Bool-cases (compare_time ts (ts.print_time file.start_time) b == 1)) [
      | inl e ↦ rw e (clip_all-IsWithin ts a b files h)
      | inr e ↦ rw e (clip-IsWithin ts a b file h e, clip_all-IsWithin ts a b files h)
    ]

-- How many of the files start no later than a time.
pub started_by : Times → String → List FileInfo → ℕ
started_by ts b [] = 0
started_by ts b (file ∷ files) =
    let rest = started_by ts b files in
    if leb (ts.make_time (ts.print_time file.start_time)) (ts.make_time b) then suc rest else rest

-- A query has one record for each file that starts no later than the query's end.
pub length-clip_all :
    (ts : Times) (a b : String) (files : List FileInfo)
    → length (clip_all ts a b files) ≡ started_by ts b files
unfolding clip_all started_by compare_time
length-clip_all ts a b [] = refl
length-clip_all ts a b (file ∷ files) = ground (arith, length-clip_all ts a b files)

-- Whether a moment lies in one of the records, and whether it lies in one of the files.
unfoldable pub in_records : Times → ℕ → List Found → Bool
in_records ts x [] = false
in_records ts x (f ∷ fs) =
    (leb (ts.make_time f.start_time) x && leb x (ts.make_time f.end_time)) || in_records ts x fs

unfoldable pub in_files : Times → ℕ → List FileInfo → Bool
in_files ts x [] = false
in_files ts x (file ∷ files) =
    let start = ts.make_time (ts.print_time file.start_time) in
    let end = ts.make_time (ts.print_time file.end_time) in
    (leb start x && leb x end) || in_files ts x files

-- The later of two times and the earlier.
abbrev latest : ℕ → ℕ → ℕ
latest a b = if leb a b then b else a

abbrev earliest : ℕ → ℕ → ℕ
earliest a b = if leb a b then a else b
