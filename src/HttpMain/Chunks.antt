-- ===== src/HttpMain/Chunks.antt =====
-- An upload and a download, each the last call of its request.
use distributed_file_system.Base.{
  ℕ, ◌≡◌, refl, ap, sym, ◌∙◌, subst, inl, inr, Bool, Bool-cases, true, false, Option, none, some,
  [], ◌∷◌, length, take-all, Bytes, codes, str_eq, lt→ltb, ◌>>=◌, if◌then◌else◌, arith,
}
use distributed_file_system.Base.Int.{ℤ}
use distributed_file_system.Decimal.{atoi}
use distributed_file_system.Disk.{Disk, IsPosix}
use distributed_file_system.State.{IsValid, catalogue}
use distributed_file_system.FileOperation.{
  Node, full_path, dir_path, file_exists, directory_has_files, save_chunk_to_file,
}
use distributed_file_system.FileOperation.Save.{appears, flushed, save_chunk_to_file_cases}
use distributed_file_system.GetFileDescriptor.{get_file_descriptor-has_chunk, has_chunk}
use distributed_file_system.GetFileDescriptor.Search.{IsOwn, has_chunk-inserted}
use distributed_file_system.HandleNewChunk.{
  ConnectionInfo, handle_new_chunk, chunk_of, success_text,
}
use distributed_file_system.HttpMain.{
  Request, Resources, Reply, queued, json, octets, http_ok, http_not_found, respond, replied,
  post_chunk, with_chunk, get_chunk, send_fd, not_found, literal, dispatch, reply_of, Connection,
  answer_to_connection,
}

-- The last call of an upload, and a download.
abbrev pub upload : Bytes → Bytes → Request
upload filename chunk_id_str = record {
  method = codes "POST";
  url = codes "/new-chunk";
  x_filename = some filename;
  x_chunk_id = some chunk_id_str;
  upload_data = [];
}

abbrev pub download : Bytes → Bytes → Request
download filename chunk_id_str = record {
  method = codes "GET";
  url = codes "/chunk";
  x_filename = some filename;
  x_chunk_id = some chunk_id_str;
  upload_data = [];
}

chunk_of_whole :
    (bytes : Bytes) → chunk_of (record { body = some bytes; size = length bytes }) ≡ some bytes
unfolding chunk_of
chunk_of_whole bytes = ap some (take-all (length bytes) bytes (omega arith))

module _ (d : Disk) where
  -- What the handler makes of the result of `saveChunkToFile`.
  abbrev pub upload_result :
      Resources → ℤ → ℕ → Connection d → Option (Bool × Node d) → Option (Reply × Connection d)
  upload_result res chunk_id size c none = none
  upload_result res chunk_id size c (some (false, t)) = none
  upload_result res chunk_id size c (some (true, t)) =
      if res.response_text
      then some (queued http_ok (json (success_text chunk_id size)), record c { node = t })
      else none

  upload_start :
      (res : Resources) (f str : Bytes) (b : ℕ) (bytes : Bytes) (c : Connection d)
      → c.con_cls ≡ some (record { body = some (b ∷ bytes); size = length (b ∷ bytes) })
      → answer_to_connection d res (upload f str) c ≡ (
          post_chunk d res
            (record { body = some (b ∷ bytes); size = length (b ∷ bytes) })
            f
            (atoi str)
            c.node
          >>= λ h. reply_of d h >>= λ (r, s). some (r, record c { node = s }))
  unfolding answer_to_connection dispatch with_chunk str_eq
  upload_start res f str b bytes c e = rw e refl

  handled :
      (res : Resources) (f : Bytes) (z : ℤ) (b : ℕ) (bytes : Bytes) (c : Connection d)
      (r : Option (Bool × Node d))
      → save_chunk_to_file d res.insert (some f) (some (b ∷ bytes)) z c.node ≡ r
      → (post_chunk d res (record { body = some (b ∷ bytes); size = length (b ∷ bytes) }) f z c.node
          >>= λ h. reply_of d h >>= λ (r, s). some (r, record c { node = s }))
        ≡ upload_result res z (length (b ∷ bytes)) c r
  unfolding post_chunk handle_new_chunk reply_of respond
  handled res f z b bytes c none e =
      rw (lt→ltb 0 (length (b ∷ bytes)) (omega arith), chunk_of_whole (b ∷ bytes), e) refl
  handled res f z b bytes c (some (false, t)) e =
      rw (lt→ltb 0 (length (b ∷ bytes)) (omega arith), chunk_of_whole (b ∷ bytes), e) refl
  handled res f z b bytes c (some (true, t)) e =
      rw (lt→ltb 0 (length (b ∷ bytes)) (omega arith), chunk_of_whole (b ∷ bytes), e)
        (elim (Bool-cases res.response_text) [
          | inl made ↦ rw made refl
          | inr not_made ↦ rw not_made refl
        ])

  -- The last call of an upload whose body is not empty faults where saving the chunk faults or
  -- fails, or where the answer's text cannot be allocated: then no page was set, and `strlen` reads
  -- through NULL, where the code means to answer 500. Else it answers 200 with the node saved.
  pub upload-save :
      (res : Resources) (f str : Bytes) (b : ℕ) (bytes : Bytes) (c : Connection d)
      → c.con_cls ≡ some (record { body = some (b ∷ bytes); size = length (b ∷ bytes) })
      → answer_to_connection d res (upload f str) c
        ≡ upload_result res
            (atoi str)
            (length (b ∷ bytes))
            c
            (save_chunk_to_file d res.insert (some f) (some (b ∷ bytes)) (atoi str) c.node)
  upload-save res f str b bytes c e =
      upload_start res f str b bytes c e ∙ handled res f (atoi str) b bytes c _ refl

  pub download_lem :
      (res : Resources) (f str : Bytes) (con_info : ConnectionInfo) (c : Connection d)
      → c.con_cls ≡ some con_info
      → answer_to_connection d res (download f str) c ≡ (
          get_chunk d res f (atoi str) c.node >>= λ h.
          reply_of d h >>= λ (r, s). some (r, record c { node = s }))
  unfolding answer_to_connection dispatch with_chunk str_eq
  download_lem res f str con_info c e = rw e refl

  send_fd_lem :
      (res : Resources) (fd : d.Fd) (s : Node d) (bytes : Bytes)
      → res.fd_response ≡ true
      → d.fstat fd s.disk ≡ some (length bytes)
      → d.read_fd fd (length bytes) s.disk ≡ bytes
      → send_fd d res fd s ≡ some (replied (queued http_ok (octets bytes)) s)
  unfolding send_fd
  send_fd_lem res fd s bytes made size content = ground arith

  -- A download on a node with a valid table, where the response can be made.
  download_found :
      (res : Resources) (f str : Bytes) (con_info : ConnectionInfo) (c : Connection d) (fd : d.Fd)
      (bytes : Bytes)
      → c.con_cls ≡ some con_info
      → res.fd_response ≡ true
      → IsValid c.node.storage
      → has_chunk f (atoi str) (catalogue c.node.storage) ≡ true
      → d.open_rdonly (full_path f (atoi str)) c.node.disk ≡ some fd
      → d.fstat fd c.node.disk ≡ some (length bytes)
      → d.read_fd fd (length bytes) c.node.disk ≡ bytes
      → answer_to_connection d res (download f str) c ≡ some (queued http_ok (octets bytes), c)
  unfolding get_chunk reply_of
  download_found res f str con_info c fd bytes e made v has opened size content =
      download_lem res f str con_info c e
      ∙ rw
          (
            get_file_descriptor-has_chunk d f (atoi str) c.node v,
            has,
            opened,
            send_fd_lem res fd c.node bytes made size content,
          )
          refl

  -- A download of a chunk that the table does not have under the name.
  pub download_missing :
      (res : Resources) (f str : Bytes) (con_info : ConnectionInfo) (c : Connection d)
      → c.con_cls ≡ some con_info
      → IsValid c.node.storage
      → has_chunk f (atoi str) (catalogue c.node.storage) ≡ false
      → answer_to_connection d res (download f str) c
        ≡ some (queued http_not_found (json (codes "{\"error\":\"404 Not Found\"}")), c)
  unfolding get_chunk not_found literal reply_of respond
  download_missing res f str con_info c e v missing =
      download_lem res f str con_info c e
      ∙ rw (get_file_descriptor-has_chunk d f (atoi str) c.node v, missing) refl

  -- An answered upload was saved, and its text made.
  pub uploaded_inv :
      (made : Bool) (p r : Reply) (q c : Connection d)
      → ◌≡◌ {A = Option (Reply × Connection d)} (some (r, c)) (if made then some (p, q) else none)
      → (r ≡ p) × (c ≡ q)
  uploaded_inv true p r q c e = (cc, cc)
  uploaded_inv false p r q c e = cc

module _ (d : Disk) (x : IsPosix d) where
  -- A chunk is downloaded as it was uploaded. On a node with a valid table, let the last call of an
  -- upload with a body that is not empty not fault. The path of its file named nothing before, nor
  -- once the directories on it were made, and the write is flushed when the file is closed; the id
  -- goes under its own name, since the directory of the file had no chunk or the last entry of the
  -- table is of the file; and the chunk array can grow. Then the call answers 200, and a download of the
  -- chunk from the node that it leaves answers 200 with the bytes of the body, if its file can be
  -- opened and the response made.
  pub download-upload :
      (res res' : Resources) (f str : Bytes) (b : ℕ) (bytes : Bytes) (c c' c'' : Connection d)
      (r : Reply) (con_info : ConnectionInfo) (fd : d.Fd)
      → IsValid c.node.storage
      → c.con_cls ≡ some (record { body = some (b ∷ bytes); size = length (b ∷ bytes) })
      → answer_to_connection d res (upload f str) c ≡ some (r, c')
      → file_exists d (full_path f (atoi str)) c.node.disk ≡ false
      → appears d (full_path f (atoi str)) c.node.disk ≡ false
      → flushed d (full_path f (atoi str)) (b ∷ bytes) c.node.disk ≡ true
      → IsOwn f (directory_has_files d (dir_path f) c.node.disk) (catalogue c.node.storage)
      → res.insert.chunks ≡ true
      → c''.node ≡ c'.node
      → c''.con_cls ≡ some con_info
      → res'.fd_response ≡ true
      → d.open_rdonly (full_path f (atoi str)) c'.node.disk ≡ some fd
      → (r ≡ queued http_ok (json (success_text (atoi str) (length (b ∷ bytes)))))
        × (answer_to_connection d res' (download f str) c''
            ≡ some (queued http_ok (octets (b ∷ bytes)), c''))
  download-upload res res' f str b bytes c c' c'' r con_info fd v body answer new absent flush own
        grown same e' made opened =
      elim (save_chunk_to_file_cases d x res.insert f (some (b ∷ bytes)) z c.node v) [
        | inl (fault, _) ↦ cc (given ∙ ap (upload_result d res z size c) fault)
        | inr (inl (disk, failed)) ↦ cc (given ∙ ap (upload_result d res z size c) failed)
        | inr (inr (inl (_, old))) ↦ cc (new, old)
        | inr (inr (inr (t, saved, w, table, inl there))) ↦ cc (absent, there)
        | inr (inr (inr (t, saved, w, table, inr (inl lost)))) ↦ cc (flush, lost)
        | inr (inr (inr (t, saved, w, table, inr (inr stored)))) ↦
            let (reply, conn) =
              uploaded_inv d res.response_text (queued http_ok (json (success_text z size))) r
                (record c { node = t }) c' (given ∙ ap (upload_result d res z size c) saved) in
            let at : c''.node ≡ t = same ∙ ap (λ k. k.node) conn in
            let there : d.content path t.disk ≡ some (b ∷ bytes) = sym stored in
            let opened' : d.open_rdonly path t.disk ≡ some fd =
              subst (λ (k : Connection d). d.open_rdonly path k.node.disk ≡ some fd) conn opened in
            (
              reply,
              download_found d res' f str con_info c'' fd (b ∷ bytes) e' made
                  (subst (λ (n : Node d). IsValid n.storage) (sym at) w)
                  (subst (λ (n : Node d). has_chunk f z (catalogue n.storage) ≡ true) (sym at)
                    (ap (has_chunk f z) table
                      ∙ has_chunk-inserted res.insert f z
                          (directory_has_files d (dir_path f) c.node.disk)
                          (catalogue c.node.storage) grown own))
                  (subst (λ (n : Node d). d.open_rdonly path n.disk ≡ some fd) (sym at) opened')
                  (subst (λ (n : Node d). d.fstat fd n.disk ≡ some size) (sym at)
                    (x.fstat-open path (b ∷ bytes) t.disk fd there opened'))
                  (subst (λ (n : Node d). d.read_fd fd size n.disk ≡ b ∷ bytes) (sym at)
                    (x.read-open path (b ∷ bytes) t.disk fd there opened')),
            )
      ]
    where
      z : ℤ
      z = atoi str

      size : ℕ
      size = length (b ∷ bytes)

      path : Bytes
      path = full_path f z

      given : ◌≡◌ {A = Option (Reply × Connection d)} (some (r, c')) (
          upload_result d res z size c
            (save_chunk_to_file d res.insert (some f) (some (b ∷ bytes)) z c.node))
      given = sym answer ∙ upload-save d res f str b bytes c body
