-- ===== src/Client/RoundTrip.antt =====
-- A file that `insertFile` cuts into chunks, read back by `readFile`.
use distributed_file_system.Base.{
  ℕ, zero, suc, ◌+◌, ◌-◌, ◌*◌, ◌≤◌, ◌<◌, ◌≡◌, ◌≢◌, refl, ap, sym, subst, ◌∙◌, min, Bool, true,
  false, some, List, [], ◌∷◌, ◌++◌, map, All, All-append_left, All-append_right, take, length,
  get_elem?, get_elem?-total, take-all, take-take-drop, take-min, arith, Bytes, ltb, lt→ltb,
}
use distributed_file_system.Decimal.{show_nat}
use distributed_file_system.Client.{
  Post, InsertStatus, inserted, thrown, waiting, InsertRun, Location, chunk_size, total_chunks,
  chunk_at, upload_loop, posted, location_loop, then_run, chunk_loop, insert_file, Reading,
  string_at, host_at, some_empty, read_loop, read_chunks, read_file,
}

abbrev pub hosts_of : List Location → List Bytes
hosts_of locations = map (λ l. l.host) locations

abbrev pub count_up : (start rounds : ℕ) → List ℕ
count_up start zero = []
count_up start (suc rounds) = start ∷ count_up (suc start) rounds

-- Every post that was answered 200 is served.
abbrev pub AreServed : Reading → List Post → Type 0
AreServed r = All (λ post. r.get post.location post.filename post.chunk_id ≡ some post.body)

get_elem?-count_up :
    (start rounds k : ℕ) → k < rounds → get_elem? (count_up start rounds) k ≡ some (start + k)
get_elem?-count_up start zero k h = absurd (omega arith)
get_elem?-count_up start (suc rounds) zero h = ap some (omega arith)
get_elem?-count_up start (suc rounds) (suc k) h =
    get_elem?-count_up (suc start) rounds k (omega arith) ∙ ap some (omega arith)

-- The first chunks and the next one.
take-chunk_at :
    (file : Bytes) (i : ℕ)
    → i * chunk_size ≤ length file
    → take (i * chunk_size) file ++ chunk_at file i ≡ take (suc i * chunk_size) file
unfolding chunk_at
take-chunk_at file i h =
    let start = i * chunk_size in
    let end = min (start + chunk_size) (length file) in
    let e : min (length file) (start + (end - start)) ≡ min (length file) (suc i * chunk_size) =
      omega arith in
    take-take-drop start (end - start) file
    ∙ ap (λ n. take n file) e
    ∙ take-min (suc i * chunk_size) file

posted-inserted :
    (post : Post) (uploaded : Bool) (run : InsertRun)
    → (posted post uploaded run).status ≡ inserted
    → (run.status ≡ inserted) × ((posted post uploaded run).posts ≡ post ∷ run.posts)
unfolding posted
posted-inserted post true run h = (h, refl)
posted-inserted post false run h = absurd cc

then_run-inserted :
    (status : InsertStatus) (posts : List Post) (b : InsertRun)
    → let run = then_run (record { status = status; posts = posts }) b in
      run.status ≡ inserted
      → (status ≡ inserted) × (b.status ≡ inserted) × (run.posts ≡ posts ++ b.posts)
unfolding then_run
then_run-inserted inserted posts b h = (refl, h, refl)
then_run-inserted thrown posts b h = absurd cc
then_run-inserted waiting posts b h = absurd cc

module _ (name : Bytes) (r : Reading) where
  -- Every location of a chunk that was uploaded to all of them serves it.
  location_loop-served :
      (id chunk : Bytes) (locations : List Location) (k : ℕ) (host : Bytes)
      → let run = location_loop name id chunk locations in
        run.status ≡ inserted
        → AreServed r run.posts
        → get_elem? (hosts_of locations) k ≡ some host
        → r.get host name id ≡ some chunk
  unfolding location_loop
  location_loop-served id chunk [] k host done served at = absurd cc
  location_loop-served id chunk (l ∷ locations) k host done served at =
      let rest = location_loop name id chunk locations in
      let (done', posts) = posted-inserted _ (upload_loop l.responses) rest done in
      let (first, served') = subst (AreServed r) posts served in
      elim k
          as (λ k.
            get_elem? (hosts_of (l ∷ locations)) k ≡ some host → r.get host name id ≡ some chunk) [
              | zero ↦ λ at.
                  let same : l.host ≡ host = cc in
                  subst (λ h. r.get h name id ≡ some chunk) same first
              | suc k ↦ λ at. location_loop-served id chunk locations k host done' served' at
            ]
        at

  module _ (file : Bytes) where
    -- What `readFile` meets after `insertFile`: it can write its output, the master lists the chunks
    -- and their locations, the random number names one of them, and what was posted is served.
    pub record Serves (answers : List (List Location)) : Type 0 where
      pub made : r.made ≡ true
      pub chunks : r.chunks ≡ some (count_up 0 (total_chunks file))
      pub locations : r.locations ≡ some (map hosts_of answers)
      pub chosen : (i n : ℕ) → 0 < n → r.random_index i n < n
      pub appended : (i : ℕ) → r.appended i ≡ true
      pub served : AreServed r (insert_file (some file) name (map some answers)).posts

    -- A chunk is read from the location that the random number names.
    chunk-served :
        (i : ℕ) (locations : List Location)
        → i < total_chunks file
        → locations ≢ []
        → ((i n : ℕ) → 0 < n → r.random_index i n < n)
        → (location_loop name (show_nat i) (chunk_at file i) locations).status ≡ inserted
        → AreServed r (location_loop name (show_nat i) (chunk_at file i) locations).posts
        → r.get
            (host_at
              (get_elem? (hosts_of locations) (r.random_index i (length (hosts_of locations)))))
            name
            (string_at (get_elem? (count_up 0 (total_chunks file)) i))
          ≡ some (chunk_at file i)
    unfolding host_at string_at
    chunk-served i [] h some_location chosen done served = absurd (some_location refl)
    chunk-served i (l ∷ locations) h some_location chosen done served =
        let hosts = hosts_of (l ∷ locations) in
        let k = r.random_index i (length hosts) in
        let (host, at) = get_elem?-total hosts k (chosen i (length hosts) (omega arith)) in
        let counted : get_elem? (count_up 0 (total_chunks file)) i ≡ some i =
          get_elem?-count_up 0 (total_chunks file) i h ∙ ap some (omega arith) in
        rw (at, counted)
          (location_loop-served (show_nat i) (chunk_at file i) (l ∷ locations) k host done served
            at)

    read_loop-chunk_loop :
        (answers : List (List Location)) (i : ℕ)
        → let run = chunk_loop name file (length answers) i (map some answers) in
          i + length answers ≡ total_chunks file
          → All (λ locations. locations ≢ []) answers
          → ((i n : ℕ) → 0 < n → r.random_index i n < n)
          → ((i : ℕ) → r.appended i ≡ true)
          → run.status ≡ inserted
          → AreServed r run.posts
          → read_loop name r
              (count_up 0 (total_chunks file))
              i
              (map hosts_of answers)
              (take (i * chunk_size) file)
            ≡ (true, file)
    unfolding chunk_loop read_loop
    read_loop-chunk_loop [] i whole located chosen appended done served =
        ap (λ b. (true, b)) (take-all (i * chunk_size) file (omega arith))
    read_loop-chunk_loop (locations ∷ answers) i whole (some_location, located) chosen appended done
          served =
        let here = location_loop name (show_nat i) (chunk_at file i) locations in
        let later = chunk_loop name file (length answers) (suc i) (map some answers) in
        let (done_here, done_later, posts) = then_run-inserted here.status here.posts later done in
        let served' = subst (AreServed r) posts served in
        rw
          (
            chunk-served i locations (omega arith) some_location chosen done_here
                (All-append_left _ here.posts later.posts served'),
            appended i,
            take-chunk_at file i (omega arith),
          )
          (read_loop-chunk_loop answers (suc i) (omega arith) located chosen appended done_later
            (All-append_right _ here.posts later.posts served'))

    some_empty-hosts_of :
        (answers : List (List Location))
        → All (λ locations. locations ≢ []) answers
        → some_empty (map hosts_of answers) ≡ false
    unfolding some_empty
    some_empty-hosts_of [] h = refl
    some_empty-hosts_of ([] ∷ answers) (h, rest) = absurd (h refl)
    some_empty-hosts_of ((l ∷ locations) ∷ answers) (h, rest) = some_empty-hosts_of answers rest

    -- Let `insertFile` have uploaded a file, each chunk to at least one location and to all that the
    -- master named. Let, by the time of the reading, the master list all its chunk ids and for each
    -- chunk the hosts that it was uploaded to, let every node serve what was posted to it, let the
    -- output be made and appended to without failures, and the random indices be in range. Then
    -- `readFile` writes the whole file, whichever replicas it takes. It returns true, but false for an
    -- empty file.
    pub read_file-insert_file :
        (answers : List (List Location))
        → length answers ≡ total_chunks file
        → All (λ locations. locations ≢ []) answers
        → (insert_file (some file) name (map some answers)).status ≡ inserted
        → Serves answers
        → read_file name r ≡ (ltb 0 (length file), file)
    unfolding read_file read_chunks insert_file
    read_file-insert_file [] whole located done s =
        rw (s.made, s.chunks, s.locations)
          (ap (λ f. (ltb 0 (length f), f)) (sym (empty file (omega arith))))
      where
        empty : (xs : Bytes) → length xs ≡ 0 → xs ≡ []
        empty [] h = refl
        empty (x ∷ xs) h = absurd (omega arith)
    read_file-insert_file (locations ∷ answers) whole located done s =
        let run = λ (rounds : ℕ). chunk_loop name file rounds 0 (map some (locations ∷ answers)) in
        let full : ltb 0 (length file) ≡ true = lt→ltb 0 (length file) (omega arith) in
        rw (s.made, s.chunks, s.locations, some_empty-hosts_of (locations ∷ answers) located, full)
          (read_loop-chunk_loop (locations ∷ answers) 0 (omega arith) located s.chosen s.appended
            (subst (λ n. (run n).status ≡ inserted) (sym whole) done)
            (subst (λ n. AreServed r (run n).posts) (sym whole) s.served))
