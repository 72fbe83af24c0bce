-- ===== src/HttpMain/Invariant.antt =====
-- storageLayer/httpServer/httpMain.c: the calls of the handler and the invariant of the table.
use distributed_file_system.Base.{
  ℕ, ◌≡◌, refl, ◌⊎◌, inl, inr, Bool, Bool-cases, true, false, Option, Option-cases, none, some,
  Bytes, str_eq, codes, ◌&&◌, not, ◌>>=◌, if◌then◌else◌, arith, ltb, length, ◌==◌,
}
use distributed_file_system.Base.Int.{ℤ}
use distributed_file_system.Decimal.{atoi}
use distributed_file_system.Disk.{Disk, IsPosix}
use distributed_file_system.State.{StorageStateOuter, IsValid, catalogue}
use distributed_file_system.State.Insert.{Allocations, inserted}
use distributed_file_system.State.Remove.{without_file}
use distributed_file_system.State.Remove.Laws.{remove_from_struct-without_file}
use distributed_file_system.FileOperation.{Node, dir_path, save_chunk_to_file}
use distributed_file_system.FileOperation.Save.{save_chunk_to_file_cases}
use distributed_file_system.GetFileDescriptor.{get_file_descriptor-has_chunk}
use distributed_file_system.HandleNewChunk.{ConnectionInfo, Page, handle_new_chunk, chunk_of}
use distributed_file_system.DeleteFile.{
  Outcome, removed, failed, too_deep, remove_directory, max_depth, delete_file,
}
use distributed_file_system.HttpMain.{
  Request, Resources, Reply, Handled, answered, replied, post_chunk, with_chunk, not_found, send_fd,
  get_chunk, remove_file, dispatch, respond, reply_of, Connection, first_call, append_upload,
  answer_to_connection, start_page,
}

-- What a call with an X-Filename may make of a table: a valid one, which is the same, the old one with
-- an insertion, or the old one without the file of the name.
pub record Changed (x_filename : Option Bytes) (start t : StorageStateOuter) : Type 0 where
  pub valid : IsValid t
  pub change :
      (t ≡ start)
      ⊎ (((a : Allocations) × (f : Bytes) × (z : ℤ) × (has : Bool) × (catalogue t
              ≡ inserted a f z has (catalogue start)))
          ⊎ ((f : Bytes) × (x_filename ≡ some f)
              × (catalogue t ≡ without_file f (catalogue start))))

unchanged : (x_filename : Option Bytes) (s : StorageStateOuter) → IsValid s → Changed x_filename s s
unchanged x_filename s v = record { valid = v; change = inl refl }

module _ (d : Disk) (x : IsPosix d) (xf : Option Bytes) (start : StorageStateOuter) where
  -- A call that does not fault ends in a node with such a table.
  abbrev Good : {A : Type 0} → (A → Node d) → Option A → Type 0
  Good node none = Unit {0}
  Good node (some a) = Changed xf start (node a).storage

  Good->>= :
      {A B : Type 0} (f : A → Node d) (g : B → Node d) (m : Option A) (k : A → Option B)
      → Good f m
      → ((a : A) → Changed xf start (f a).storage → Good g (k a))
      → Good g (m >>= k)
  Good->>= f g none k h next = tt
  Good->>= f g (some a) k h next = next a h

  node_of : Handled d → Node d
  node_of (answered a s) = s
  node_of (replied r s) = s

  Good-if :
      {A : Type 0} (f : A → Node d) (b : Bool) (m n : Option A)
      → Good f m
      → Good f n
      → Good f (if b then m else n)
  Good-if f true m n h k = h
  Good-if f false m n h k = k

  reply_of-Good :
      (h : Handled d) → Changed xf start (node_of h).storage → Good (λ r. r.1) (reply_of d h)
  unfolding reply_of node_of respond
  reply_of-Good (answered a s) v = elim (Option-cases a.page.page) [
    | inl missing ↦ rw (missing, Good) tt
    | inr (text, found) ↦ rw (found, Good) v
  ]
  reply_of-Good (replied r s) v = v

module _ (d : Disk) (x : IsPosix d) (xf : Option Bytes) (s : Node d) (v : IsValid s.storage) where
  abbrev Ok : {A : Type 0} → (A → Node d) → Option A → Type 0
  Ok = Good d x xf s.storage

  same : Changed xf s.storage s.storage
  same = unchanged xf s.storage v

  save-Good :
      (a : Allocations) (filename : Bytes) (bytes : Option Bytes) (chunk_id : ℤ)
      → Ok (λ r. r.1) (save_chunk_to_file d a (some filename) bytes chunk_id s)
  save-Good a filename bytes chunk_id =
      elim (save_chunk_to_file_cases d x a filename bytes chunk_id s v) [
        | inl (e, _) ↦ rw (e, Good) tt
        | inr (inl (disk, e)) ↦ rw (e, Good) same
        | inr (inr (inl (e, _))) ↦ rw (e, Good) same
        | inr (inr (inr (t, e, w, c, _))) ↦
            rw (e, Good) (record { valid = w; change = inr (inl (a, filename, chunk_id, _, c)) })
      ]

  handle_new_chunk-Good :
      (a : Allocations) (text_ok : Bool) (c : ConnectionInfo) (page : Page) (filename : Bytes)
      (chunk_id : ℤ)
      → Ok (λ r. r.2) (handle_new_chunk d a text_ok c page filename chunk_id s)
  unfolding handle_new_chunk
  handle_new_chunk-Good a text_ok c page filename chunk_id =
      Good->>= d x xf s.storage (λ r. r.1) (λ r. r.2) _ _
        (save-Good a filename (chunk_of c) chunk_id) (λ (b, t) w. ground arith)

  post_chunk-Good :
      (res : Resources) (body : Option Bytes) (size : ℕ) (filename : Bytes) (chunk_id : ℤ)
      → Ok
          (node_of d x xf s.storage)
          (post_chunk d res (record { body = body; size = size }) filename chunk_id s)
  unfolding post_chunk node_of
  post_chunk-Good res none size filename chunk_id = same
  post_chunk-Good res (some bytes) size filename chunk_id = elim (Bool-cases (ltb 0 size)) [
    | inl some_bytes ↦ rw some_bytes (
        Good->>= d x xf s.storage (λ r. r.2) (node_of d x xf s.storage) _ _
          (handle_new_chunk-Good res.insert res.response_text
            (record { body = some bytes; size = size }) start_page filename chunk_id)
          (λ r w. w))
    | inr no_bytes ↦ rw (no_bytes, Good) same
  ]

  get_chunk-Good :
      (res : Resources) (filename : Bytes) (chunk_id : ℤ)
      → Ok (node_of d x xf s.storage) (get_chunk d res filename chunk_id s)
  unfolding get_chunk node_of send_fd not_found
  get_chunk-Good res filename chunk_id =
      let kept : Changed xf s.storage s.storage = same in
      rw (get_file_descriptor-has_chunk d filename chunk_id s v) (ground arith)

  remove_file-Good :
      (res : Resources) (filename : Option Bytes)
      → xf ≡ filename
      → Ok (node_of d x xf s.storage) (remove_file d res filename s)
  unfolding remove_file node_of delete_file
  remove_file-Good res none named = same
  remove_file-Good res (some filename) named =
      by_outcome (remove_directory d max_depth (dir_path filename) s.disk) refl
    where
      by_outcome :
          (o : Outcome d.State)
          → remove_directory d max_depth (dir_path filename) s.disk ≡ o
          → Ok (node_of d x xf s.storage) (remove_file d res (some filename) s)
      by_outcome (removed disk) e =
          let (t, done, w, c) = remove_from_struct-without_file res.shrunk filename s.storage v in
          rw (e, done, Good) (record { valid = w; change = inr (inr (filename, named, c)) })
      by_outcome (failed disk) e = rw (e, Good) same
      by_outcome too_deep e = rw (e, Good) tt

  with_chunk-Good :
      (filename chunk_id_str : Option Bytes) (next : Bytes → ℤ → Node d → Option (Handled d))
      → ((filename : Bytes) (chunk_id : ℤ)
          → Ok (node_of d x xf s.storage) (next filename chunk_id s))
      → Ok (node_of d x xf s.storage) (with_chunk d filename chunk_id_str next s)
  unfolding with_chunk node_of
  with_chunk-Good none chunk_id_str next h = same
  with_chunk-Good (some filename) none next h = same
  with_chunk-Good (some filename) (some chunk_id_str) next h = h filename (atoi chunk_id_str)

module _ (d : Disk) (x : IsPosix d) (res : Resources) (req : Request) (s : Node d)
    (v : IsValid s.storage) where
  abbrev xf : Option Bytes
  xf = req.x_filename

  abbrev at_node : Handled d → Node d
  at_node = node_of d x xf s.storage

  dispatch-Good : (c : ConnectionInfo) → Ok d x xf s v at_node (dispatch d res req c s)
  unfolding dispatch node_of not_found
  dispatch-Good c =
      let kept : Changed xf s.storage s.storage = unchanged xf s.storage v in
      Good-if d x xf s.storage at_node (str_eq req.method (codes "POST")) _ _
        (Good-if d x xf s.storage at_node (str_eq req.url (codes "/new-chunk")) _ _
          (with_chunk-Good d x xf s v req.x_filename req.x_chunk_id (post_chunk d res c)
            (λ filename chunk_id. post_chunk-Good d x xf s v res c.body c.size filename chunk_id))
          kept)
        (Good-if d x xf s.storage at_node (str_eq req.method (codes "GET")) _ _
          (Good-if d x xf s.storage at_node (str_eq req.url (codes "/chunk")) _ _
            (with_chunk-Good d x xf s v req.x_filename req.x_chunk_id (get_chunk d res)
              (λ filename chunk_id. get_chunk-Good d x xf s v res filename chunk_id))
            kept)
          (Good-if d x xf s.storage at_node (str_eq req.method (codes "DELETE")) _ _
            (Good-if d x xf s.storage at_node (str_eq req.url (codes "/remove-file")) _ _
              (remove_file-Good d x xf s v res req.x_filename refl) kept)
            kept))

  answer-Good :
      (con_cls : Option ConnectionInfo)
      → Ok d x xf s v
          (λ r. r.1.node)
          (answer_to_connection d res req (record { con_cls = con_cls; node = s }))
  unfolding answer_to_connection first_call append_upload
  answer-Good none =
      let kept : Changed xf s.storage s.storage = unchanged xf s.storage v in
      Good-if d x xf s.storage (λ r. r.1.node) res.con_info _ _ kept kept
  answer-Good (some c) =
      let kept : Changed xf s.storage s.storage = unchanged xf s.storage v in
      Good-if d x xf s.storage (λ r. r.1.node)
        (str_eq req.method (codes "POST") && not (length req.upload_data == 0)) _ _
        (Good-if d x xf s.storage (λ r. r.1.node) res.new_data _ _ kept kept)
        (Good->>= d x xf s.storage at_node (λ r. r.1.node) _ _ (dispatch-Good c)
          (λ h w.
            Good->>= d x xf s.storage (λ r. r.1) (λ r. r.1.node) _ _
              (reply_of-Good d x xf s.storage h w) (λ p u. u)))

module _ (d : Disk) (x : IsPosix d) where
  -- What a call of the handler that does not fault makes of the table.
  pub answer_to_connection-Changed :
      (res : Resources) (req : Request) (c c' : Connection d) (r : Reply)
      → IsValid c.node.storage
      → answer_to_connection d res req c ≡ some (r, c')
      → Changed req.x_filename c.node.storage c'.node.storage
  answer_to_connection-Changed res req c c' r v e =
      rw (e, Good) at (answer-Good d x res req c.node v c.con_cls)

  -- Every call of the handler that does not fault, whatever the request, the headers, the body so
  -- far, the disk's answers and the allocations that fail, leaves the table valid and unlocked.
  pub answer_to_connection-IsValid :
      (res : Resources) (req : Request) (c c' : Connection d) (r : Reply)
      → IsValid c.node.storage
      → answer_to_connection d res req c ≡ some (r, c')
      → IsValid c'.node.storage
  answer_to_connection-IsValid res req c c' r v e =
      (answer_to_connection-Changed res req c c' r v e).valid
