-- ===== src/Cache/Store.antt =====
-- internal/cache/store.go: uploads that become cache entries, with their blobs on disk.
--
-- The two SQL tables are lists of rows and each statement is a function on them; the statements and
-- the file system calls themselves succeed, but an INSERT whose id is taken and a transfer that
-- breaks off fail as in the source. A folder's name is the decimal text of its upload id: it is that
-- number here. Times are milliseconds.
pub mod Evict
pub mod Rows
pub mod Invariant
pub mod Completing
pub mod Repointing
pub mod Replacing
pub mod Evicting
pub mod History
pub mod Limits
pub mod Orphans
pub mod Sending
pub mod Transfer
use multirunner.Common.{
  ℕ, zero, suc, ◌+◌, ◌-◌, ◌≡◌, Bool, true, false, not, ◌&&◌, ◌||◌, Option, none, some, List, [],
  ◌∷◌, ◌++◌, ◌==◌, ltb, leb, if◌then◌else◌, is_some, any, Text, text_eq, Table, lookup, put, delete,
  length,
}

-- key, version, scope, repo_id: what a cache entry and an upload are found by.
pub record Slot : Type 0 where
  pub key : Text
  pub version : Text
  pub scope : Text
  pub repo_id : Text

unfoldable pub slot_eq : Slot → Slot → Bool
slot_eq a b =
    text_eq a.key b.key
    && text_eq a.version b.version
    && text_eq a.scope b.scope
    && text_eq a.repo_id b.repo_id

-- A row of `uploads`.
pub record Upload : Type 0 where
  pub id : ℕ
  pub slot : Slot
  pub started_parts : ℕ
  pub finished_parts : ℕ

-- A row of `cache_entries`.
pub record Entry : Type 0 where
  pub id : ℕ
  pub slot : Slot
  pub part_count : ℕ
  pub updated_at : ℕ
  pub last_used_at : ℕ

-- <root>/<folder>/parts/<index>
abbrev pub Parts : Type 0
Parts = Table Text

pub record Store : Type 0 where
  pub uploads : List Upload
  pub entries : List Entry
  pub blobs : Table Parts

-- SELECT … FROM uploads WHERE id=?
unfoldable pub upload_by_id : ℕ → List Upload → Option Upload
upload_by_id id [] = none
upload_by_id id (u ∷ us) = if u.id == id then some u else upload_by_id id us

-- SELECT … FROM uploads WHERE key=? AND version=? AND scope=? AND repo_id=?
unfoldable pub upload_by_slot : Slot → List Upload → Option Upload
unfolding slot_eq
upload_by_slot s [] = none
upload_by_slot s (u ∷ us) = if slot_eq u.slot s then some u else upload_by_slot s us

-- DELETE FROM uploads WHERE id=?
unfoldable pub drop_upload : ℕ → List Upload → List Upload
drop_upload id [] = []
drop_upload id (u ∷ us) = let rest = drop_upload id us in if u.id == id then rest else u ∷ rest

-- What createUpload returns: an id, ok=false, or an error.
pub data Created : Type 0 where
  created : ℕ → Created
  exists_already : Created
  insert_failed : Created

unfoldable pub new_upload : ℕ → Slot → Upload
new_upload id s = record { id = id; slot = s; started_parts = 0; finished_parts = 0 }

-- createUpload; `id` is what randomID gives.
unfoldable pub create_upload : ℕ → Slot → Store → Created × Store
unfolding upload_by_slot upload_by_id new_upload
create_upload id s st =
    if is_some (upload_by_slot s st.uploads)
    then (exists_already, st)
    else if is_some (upload_by_id id st.uploads)
    then (insert_failed, st)
    else (created id, record st { uploads = st.uploads ++ new_upload id s ∷ [] })

-- UPDATE uploads SET started_parts=started_parts+1 WHERE id=?
unfoldable pub bump_started : ℕ → List Upload → List Upload
bump_started id [] = []
bump_started id (u ∷ us) =
    (if u.id == id then record u { started_parts = u.started_parts + 1 } else u)
    ∷ bump_started id us

-- UPDATE uploads SET finished_parts=finished_parts+1 WHERE id=?
unfoldable pub bump_finished : ℕ → List Upload → List Upload
bump_finished id [] = []
bump_finished id (u ∷ us) =
    (if u.id == id then record u { finished_parts = u.finished_parts + 1 } else u)
    ∷ bump_finished id us

unfoldable pub parts_of : ℕ → Table Parts → Parts
parts_of folder b = elim (lookup folder b) [ none ↦ [] | some ps ↦ ps ]

-- What io.Copy reads from the request: the bytes, and whether it ended without an error.
pub record Body : Type 0 where
  pub bytes : Text
  pub whole : Bool

-- MkdirAll, Create (which truncates) and Copy
unfoldable pub write_part : ℕ → ℕ → Text → Table Parts → Table Parts
unfolding parts_of
write_part folder index bytes b = put folder (put index bytes (parts_of folder b)) b

-- The part is counted as started, and what arrives of it is written.
unfoldable pub start_part : ℕ → ℕ → Text → Store → Store
unfolding bump_started write_part
start_part id index bytes st = record st {
  uploads = bump_started id st.uploads;
  blobs = write_part id index bytes st.blobs;
}

unfoldable pub finish_part : ℕ → Store → Store
unfolding bump_finished
finish_part id st = record st { uploads = bump_finished id st.uploads }

-- uploadPart: true where it returns nil. A chunk of an unknown upload is ignored.
unfoldable pub upload_part : ℕ → ℕ → Body → Store → Bool × Store
unfolding upload_by_id start_part finish_part
upload_part id index body st =
    let started = start_part id index body.bytes st in
    if is_some (upload_by_id id st.uploads)
    then if body.whole then (true, finish_part id started) else (false, started)
    else (true, st)

-- What completeUpload returns: the folder, or one of its errors.
pub data Completed : Type 0 where
  completed : ℕ → Completed
  no_rows no_parts part_mismatch insert_refused : Completed

-- countParts
unfoldable pub count_parts : ℕ → Table Parts → ℕ
unfolding parts_of
count_parts folder b = length (parts_of folder b)

-- requireContiguousParts: every part below `count` is there.
unfoldable pub contiguous : ℕ → Parts → Bool
contiguous zero ps = true
contiguous (suc i) ps = contiguous i ps && is_some (lookup i ps)

-- SELECT id FROM cache_entries WHERE key=? AND version=? AND scope=? AND repo_id=?
unfoldable pub entry_by_slot : Slot → List Entry → Option Entry
unfolding slot_eq
entry_by_slot s [] = none
entry_by_slot s (e ∷ es) = if slot_eq e.slot s then some e else entry_by_slot s es

-- SELECT … FROM cache_entries WHERE id=?
unfoldable pub entry_by_id : ℕ → List Entry → Option Entry
entry_by_id id [] = none
entry_by_id id (e ∷ es) = if e.id == id then some e else entry_by_id id es

-- UPDATE cache_entries SET id=?, part_count=?, updated_at=?, last_used_at=? WHERE key=? AND …
unfoldable pub repoint_one : Slot → ℕ → ℕ → ℕ → ℕ → Entry → Entry
unfolding slot_eq
repoint_one s folder count updated used e =
    if slot_eq e.slot s
    then record e { id = folder; part_count = count; updated_at = updated; last_used_at = used }
    else e

unfoldable pub repoint : Slot → ℕ → ℕ → ℕ → ℕ → List Entry → List Entry
unfolding repoint_one
repoint s folder count updated used [] = []
repoint s folder count updated used (e ∷ es) =
    repoint_one s folder count updated used e ∷ repoint s folder count updated used es

-- The folder is the primary key of another entry.
unfoldable pub id_taken : Slot → ℕ → List Entry → Bool
unfolding slot_eq
id_taken s folder = any (λ e. not (slot_eq e.slot s) && e.id == folder)

-- The UPDATE is refused if the id is taken; else the prior entry's folder goes, if it is another.
unfoldable pub replace_entry : Slot → ℕ → ℕ → ℕ → ℕ → Entry → Store → Completed × Store
unfolding repoint drop_upload id_taken
replace_entry s folder count updated used old st =
    if id_taken s folder st.entries then (insert_refused, st) else (
      completed folder,
      record {
        uploads = drop_upload folder st.uploads;
        entries = repoint s folder count updated used st.entries;
        blobs = if old.id == folder then st.blobs else delete old.id st.blobs;
      },
    )

-- INSERT INTO cache_entries
unfoldable pub new_entry : Slot → ℕ → ℕ → ℕ → ℕ → Entry
new_entry s folder count updated used = record {
  id = folder;
  slot = s;
  part_count = count;
  updated_at = updated;
  last_used_at = used;
}

unfoldable pub insert_entry : Slot → ℕ → ℕ → ℕ → ℕ → Store → Completed × Store
unfolding entry_by_id drop_upload new_entry
insert_entry s folder count updated used st =
    if is_some (entry_by_id folder st.entries) then (insert_refused, st) else (
      completed folder,
      record st {
        uploads = drop_upload folder st.uploads;
        entries = st.entries ++ new_entry s folder count updated used ∷ [];
      },
    )

-- The second half of completeUpload: the entry of this slot is repointed, or a new one is made.
unfoldable pub promote : Slot → ℕ → ℕ → ℕ → ℕ → Store → Completed × Store
unfolding entry_by_slot replace_entry insert_entry
promote s folder count updated used st = elim (entry_by_slot s st.entries) [
  | none ↦ insert_entry s folder count updated used st
  | some old ↦ replace_entry s folder count updated used old st
]

-- An upload that fails its validation is forgotten.
unfoldable pub reject : Completed → ℕ → Store → Completed × Store
unfolding drop_upload
reject c id st = (c, record st { uploads = drop_upload id st.uploads })

unfoldable pub complete_found : Slot → ℕ → ℕ → Upload → Store → Completed × Store
unfolding reject promote count_parts contiguous parts_of
complete_found s updated used up st =
    if up.finished_parts == 0
    then reject no_parts up.id st
    else if not (up.started_parts == up.finished_parts)
    then reject part_mismatch up.id st
    else if not (count_parts up.id st.blobs == up.finished_parts)
    then reject part_mismatch up.id st
    else if not (contiguous up.finished_parts (parts_of up.id st.blobs))
    then reject part_mismatch up.id st
    else promote s up.id (count_parts up.id st.blobs) updated used st

-- completeUpload; `updated` and `used` are the two readings of the clock.
unfoldable pub complete_upload : Slot → ℕ → ℕ → Store → Completed × Store
unfolding upload_by_slot complete_found
complete_upload s updated used st = elim (upload_by_slot s st.uploads) [
  | none ↦ (no_rows, st)
  | some up ↦ complete_found s updated used up st
]

-- partsReader, read to its end: the parts below `count` in order, or none at a missing one.
unfoldable pub read_parts : ℕ → Parts → Option Text
read_parts zero ps = some []
read_parts (suc i) ps = elim (read_parts i ps) [
  | none ↦ none
  | some t ↦ elim (lookup i ps) [ none ↦ none | some p ↦ some (t ++ p) ]
]

-- openDownload and the reader: the first layer is os.ErrNotExist.
unfoldable pub download : ℕ → Store → Option (Option Text)
unfolding entry_by_id read_parts parts_of
download id st = elim (entry_by_id id st.entries) [
  | none ↦ none
  | some e ↦ some (read_parts e.part_count (parts_of id st.blobs))
]
