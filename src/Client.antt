-- ===== src/Client.antt =====
-- client/client/insertFile.ts, readFile.ts and removeFile.ts with client/master: the library that cuts
-- files into chunks. What a request is answered goes through `tryCatch`: none is an error, which a
-- status outside 200 to 299 is for axios. Where the answers run out the code still waits.
pub mod RoundTrip
pub mod Remove
use distributed_file_system.Base.{
  ℕ, zero, suc, ◌+◌, ◌-◌, ◌*◌, ◌/◌, min, Bool, true, false, Option, none, some, List, [], ◌∷◌, ◌++◌,
  take, drop, length, get_elem?, Bytes, codes, ◌==◌, if◌then◌else◌,
}
use distributed_file_system.Decimal.{show_nat}

-- `POST /new-chunk` of the storage node at a location.
pub record Post : Type 0 where
  pub location : Bytes
  pub filename : Bytes
  pub chunk_id : Bytes
  pub body : Bytes

-- How `insertFile` stands: it returned true, it threw, or it waits.
pub data InsertStatus : Type 0 where
  inserted thrown waiting : InsertStatus

-- With the posts that were answered 200.
pub record InsertRun : Type 0 where
  pub status : InsertStatus
  pub posts : List Post

-- A location that the master names, and what the posts to it are answered.
pub record Location : Type 0 where
  pub host : Bytes
  pub responses : List (Option ℕ)

abbrev pub chunk_size : ℕ
chunk_size = 8192

-- `Math.ceil(fileBuffer.length / CHUNK_SIZE)`
abbrev pub total_chunks : Bytes → ℕ
total_chunks file_buffer = (length file_buffer + 8191) / 8192

-- `fileBuffer.subarray(start, end)`
unfoldable pub chunk_at : Bytes → (chunk_id : ℕ) → Bytes
chunk_at file_buffer chunk_id =
    let start = chunk_id * chunk_size in
    let end = min (start + chunk_size) (length file_buffer) in
    take (end - start) (drop start file_buffer)

-- The `while` loop: whether it ends.
unfoldable pub upload_loop : List (Option ℕ) → Bool
upload_loop [] = false
upload_loop (none ∷ responses) = upload_loop responses
upload_loop (some status ∷ responses) =
    let uploaded = upload_loop responses in if status == 200 then true else uploaded

-- What an upload adds to a run.
unfoldable pub posted : Post → (uploaded : Bool) → InsertRun → InsertRun
posted post true run = record { status = run.status; posts = post ∷ run.posts }
posted post false run = record { status = waiting; posts = [] }

-- The loop over the locations of a chunk.
unfoldable pub location_loop : (filename chunk_id chunk : Bytes) → List Location → InsertRun
unfolding upload_loop posted
location_loop filename chunk_id chunk [] = record { status = inserted; posts = [] }
location_loop filename chunk_id chunk (l ∷ locations) =
    posted (record { location = l.host; filename = filename; chunk_id = chunk_id; body = chunk })
      (upload_loop l.responses) (location_loop filename chunk_id chunk locations)

-- One run behind another.
unfoldable pub then_run : InsertRun → InsertRun → InsertRun
then_run a b = elim a.status [
  | inserted ↦ record { status = b.status; posts = a.posts ++ b.posts }
  | other ↦ record { status = other; posts = a.posts }
]

-- The loop over the chunks, of which `rounds` are left. `getChunkServerToAddChunkTo` returns null for
-- an error, over which `for … of` throws.
unfoldable pub chunk_loop :
    (filename file_buffer : Bytes)
    → (rounds chunk_id : ℕ) → List (Option (List Location))
    → InsertRun
unfolding location_loop then_run chunk_at
chunk_loop filename file_buffer zero chunk_id answers = record { status = inserted; posts = [] }
chunk_loop filename file_buffer (suc rounds) chunk_id [] = record { status = waiting; posts = [] }
chunk_loop filename file_buffer (suc rounds) chunk_id (none ∷ answers) = record {
  status = thrown;
  posts = [];
}
chunk_loop filename file_buffer (suc rounds) chunk_id (some locations ∷ answers) =
    then_run (location_loop filename (show_nat chunk_id) (chunk_at file_buffer chunk_id) locations)
      (chunk_loop filename file_buffer rounds (suc chunk_id) answers)

-- `readFileSync` throws where there is no such file.
unfoldable pub insert_file :
    Option Bytes → (file_name : Bytes) → List (Option (List Location)) → InsertRun
unfolding chunk_loop
insert_file none file_name answers = record { status = thrown; posts = [] }
insert_file (some file_buffer) file_name answers =
    chunk_loop file_name file_buffer (total_chunks file_buffer) 0 answers

-- What `readFile` meets: whether the output file is made, the master's answers, which replica the
-- random number names, the answers to `GET /chunk`, and whether the chunk of an index is appended.
pub record Reading : Type 0 where
  pub made : Bool
  pub chunks : Option (List ℕ)
  pub locations : Option (List (List Bytes))
  pub random_index : (i replicas : ℕ) → ℕ
  pub get : (host filename chunk_id : Bytes) → Option Bytes
  pub appended : ℕ → Bool

-- `String(chunkIds[i])` and `replicas[randomIndex]`, out of range too.
unfoldable pub string_at : Option ℕ → Bytes
string_at none = codes "undefined"
string_at (some n) = show_nat n

unfoldable pub host_at : Option Bytes → Bytes
host_at none = codes "undefined"
host_at (some host) = host

-- `locations.some((loc) => !loc || loc.length === 0)`
unfoldable pub some_empty : List (List Bytes) → Bool
some_empty [] = false
some_empty ([] ∷ locations) = true
some_empty ((host ∷ hosts) ∷ locations) = some_empty locations

-- The loop over the locations from the `i`-th on: the result, and what the output file has then.
unfoldable pub read_loop :
    (filepath : Bytes)
    → Reading
    → (chunk_ids : List ℕ) → (i : ℕ) → List (List Bytes)
    → (output : Bytes) → Bool × Bytes
unfolding string_at host_at
read_loop filepath r chunk_ids i [] output = (true, output)
read_loop filepath r chunk_ids i (replicas ∷ locations) output =
    let host = host_at (get_elem? replicas (r.random_index i (length replicas))) in
    elim (r.get host filepath (string_at (get_elem? chunk_ids i))) [
      | none ↦ (false, output)
      | some buf ↦
          let rest = read_loop filepath r chunk_ids (suc i) locations (output ++ buf) in
          if r.appended i then rest else (false, output)
    ]

-- After the master's answers.
unfoldable pub read_chunks :
    (filepath : Bytes) → Reading → (chunk_ids : List ℕ) → Option (List (List Bytes)) → Bool × Bytes
unfolding some_empty read_loop
read_chunks filepath r chunk_ids none = (false, [])
read_chunks filepath r chunk_ids (some []) = (false, [])
read_chunks filepath r chunk_ids (some (replicas ∷ locations)) =
    if some_empty (replicas ∷ locations)
    then (false, [])
    else read_loop filepath r chunk_ids 0 (replicas ∷ locations) []

unfoldable pub read_file : (filepath : Bytes) → Reading → Bool × Bytes
unfolding read_chunks
read_file filepath r =
    if r.made
    then elim r.chunks [
      | none ↦ (false, [])
      | some chunk_ids ↦ read_chunks filepath r chunk_ids r.locations
    ]
    else (false, [])

-- The loop of `deleteFile`: a `for … in` over the array takes its indices as text for the hosts.
-- The hosts that were asked, and the result.
unfoldable pub remove_loop :
    (delete : (host : Bytes) → Option ℕ) → (i : ℕ) → (locations : List Bytes) → Bool × List Bytes
remove_loop delete i [] = (true, [])
remove_loop delete i (location ∷ locations) =
    let (result, asked) = remove_loop delete (suc i) locations in
    elim (delete (show_nat i)) [
      | none ↦ (false, show_nat i ∷ [])
      | some status ↦
          if status == 200 then (result, show_nat i ∷ asked) else (false, show_nat i ∷ [])
    ]

unfoldable pub delete_file :
    (locations : Option (List Bytes)) → (delete : (host : Bytes) → Option ℕ) → Bool × List Bytes
unfolding remove_loop
delete_file none delete = (false, [])
delete_file (some locations) delete = remove_loop delete 0 locations
