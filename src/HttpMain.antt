-- ===== src/HttpMain.antt =====
-- storageLayer/httpServer/httpMain.c: the callbacks of the HTTP server of a storage node. What
-- libmicrohttpd does with a response is outside; the model keeps the response that it is handed.
pub mod Server
pub mod Invariant
pub mod Upload
pub mod Chunks
pub mod Misplaced
pub mod Removed
use distributed_file_system.Base.{
  ℕ, zero, suc, ◌+◌, Bool, true, false, ◌&&◌, not, Option, none, some, List, [], ◌∷◌, ◌++◌, take,
  length, Bytes, codes, str_eq, ltb, ◌>>=◌, ◌==◌, if◌then◌else◌,
}
use distributed_file_system.Base.Int.{ℤ}
use distributed_file_system.Decimal.{atoi}
use distributed_file_system.Disk.{Disk}
use distributed_file_system.State.Insert.{Allocations}
use distributed_file_system.FileOperation.{Node}
use distributed_file_system.GetFileDescriptor.{get_file_descriptor}
use distributed_file_system.HandleNewChunk.{ConnectionInfo, Page, handle_new_chunk}
use distributed_file_system.DeleteFile.{delete_file}

-- The arguments of a call of the handler: the headers are what MHD_lookup_connection_value gives,
-- `none` for NULL, and `upload_data` has as many bytes as `*upload_data_size` says.
pub record Request : Type 0 where
  pub method : Bytes
  pub url : Bytes
  pub x_filename : Option Bytes
  pub x_chunk_id : Option Bytes
  pub upload_data : Bytes

-- Which allocations of a call succeed.
pub record Resources : Type 0 where
  pub con_info : Bool
  pub new_data : Bool
  pub insert : Allocations
  pub shrunk : Bool
  pub response_text : Bool
  pub fd_response : Bool

abbrev pub http_ok : ℕ
http_ok = 200

abbrev pub http_bad_request : ℕ
http_bad_request = 400

abbrev pub http_not_found : ℕ
http_not_found = 404

abbrev pub http_method_not_allowed : ℕ
http_method_not_allowed = 405

abbrev pub http_internal_server_error : ℕ
http_internal_server_error = 500

-- The body of a response: a text, sent as application/json, or the bytes of a descriptor, sent as
-- application/octet-stream.
pub data Body : Type 0 where
  json : Bytes → Body
  octets : Bytes → Body

-- MHD_NO, MHD_YES with no response yet, or a response that is queued.
pub data Reply : Type 0 where
  mhd_no mhd_yes : Reply
  queued : (status : ℕ) → Body → Reply

-- The variables of the handler.
pub record Answer : Type 0 where
  pub status : ℕ
  pub page : Page

-- `page` set to a literal.
unfoldable pub literal : ℕ → Bytes → Answer
literal status text = record {
  status = status;
  page = record { page = some text; should_free = false };
}

-- The values that the variables start with.
abbrev pub start_page : Page
start_page = record { page = none; should_free = false }

-- The end of the handler. `strlen(page)` reads through NULL where no page was set.
unfoldable pub respond : Answer → Option Reply
respond a = elim a.page.page [ none ↦ none | some text ↦ some (queued a.status (json text)) ]

-- What `realloc` starts from.
unfoldable pub buffer : Option Bytes → Bytes
buffer none = []
buffer (some bytes) = bytes

module _ (d : Disk) where
  -- A branch that sets the page, or one that has queued a response itself.
  pub data Handled : Type 0 where
    answered : Answer → Node d → Handled
    replied : Reply → Node d → Handled

  unfoldable pub post_chunk : Resources → ConnectionInfo → Bytes → ℤ → Node d → Option Handled
  post_chunk res con_info filename chunk_id s = elim con_info.body [
    | none ↦ some (answered (literal http_bad_request (codes "{\"error\":\"No request body\"}")) s)
    | some bytes ↦
        if ltb 0 con_info.size
        then (do
          (ok, page, t) ←
              handle_new_chunk d res.insert res.response_text con_info start_page filename chunk_id
                s
          let status = if ok then http_ok else http_internal_server_error
          some (answered (record { status = status; page = page }) t))
        else some (answered (literal http_bad_request (codes "{\"error\":\"No request body\"}")) s)
  ]

  -- The header checks that /new-chunk and /chunk share.
  unfoldable pub with_chunk :
      (filename chunk_id_str : Option Bytes)
      → (Bytes → ℤ → Node d → Option Handled)
      → Node d
      → Option Handled
  with_chunk none chunk_id_str next s = some (
      answered (literal http_bad_request (codes "{\"error\":\"Missing X-Filename or X-Chunk-ID\"}"))
        s)
  with_chunk (some filename) none next s = some (
      answered (literal http_bad_request (codes "{\"error\":\"Missing X-Filename or X-Chunk-ID\"}"))
        s)
  with_chunk (some filename) (some chunk_id_str) next s = next filename (atoi chunk_id_str) s

  unfoldable pub not_found : Node d → Option Handled
  not_found s = some (answered (literal http_not_found (codes "{\"error\":\"404 Not Found\"}")) s)

  -- With the descriptor open. A response that cannot be made is MHD_NO.
  unfoldable pub send_fd : Resources → d.Fd → Node d → Option Handled
  send_fd res fd s = elim (d.fstat fd s.disk) [
    | none ↦ some (
        answered (literal http_internal_server_error (codes "{\"error\":\"Could not stat file\"}"))
          s)
    | some st_size ↦
        if res.fd_response
        then some (replied (queued http_ok (octets (d.read_fd fd st_size s.disk))) s)
        else some (replied mhd_no s)
  ]

  unfoldable pub get_chunk : Resources → Bytes → ℤ → Node d → Option Handled
  get_chunk res filename chunk_id s = do
    (fd, storage) ← get_file_descriptor d filename chunk_id s
    let t = record s { storage = storage }
    elim fd [ none ↦ not_found t | some fd ↦ send_fd res fd t ]

  unfoldable pub remove_file : Resources → (filename : Option Bytes) → Node d → Option Handled
  remove_file res none s =
      some (answered (literal http_bad_request (codes "{\"error\":\"Missing X-Filename \"}")) s)
  remove_file res (some filename) s = do
    (ok, t) ← delete_file d res.shrunk filename s
    some (
        answered
          (if ok
            then literal http_ok (codes "{\"message\":\"successfully deleted\"}")
            else literal http_internal_server_error (codes "{\"error\":\"404 Not Found\"}"))
          t)

  -- The branches on the method and the url.
  unfoldable pub dispatch : Resources → Request → ConnectionInfo → Node d → Option Handled
  dispatch res req con_info s =
      if str_eq req.method (codes "POST")
      then (if str_eq req.url (codes "/new-chunk")
          then with_chunk req.x_filename req.x_chunk_id (post_chunk res con_info) s
          else not_found s)
      else if str_eq req.method (codes "GET")
      then (if str_eq req.url (codes "/chunk")
          then with_chunk req.x_filename req.x_chunk_id (get_chunk res) s
          else not_found s)
      else if str_eq req.method (codes "DELETE")
      then (if str_eq req.url (codes "/remove-file")
          then remove_file res req.x_filename s
          else not_found s)
      else some (
          answered (literal http_method_not_allowed (codes "{\"error\":\"Method Not Allowed\"}")) s)

  unfoldable pub reply_of : Handled → Option (Reply × Node d)
  reply_of (replied r s) = some (r, s)
  reply_of (answered a s) = do r ← respond a; some (r, s)

  -- The server's state for one connection: `*con_cls`, `none` for NULL, and the node.
  pub record Connection : Type 0 where
    pub con_cls : Option ConnectionInfo
    pub node : Node d

  -- The first call of a request.
  unfoldable pub first_call : Resources → Connection → Option (Reply × Connection)
  first_call res c =
      if res.con_info
      then some (mhd_yes, record c { con_cls = some (record { body = none; size = 0 }) })
      else some (mhd_no, c)

  -- A piece of the body is appended to the buffer. Where the buffer cannot grow the request is
  -- given up.
  unfoldable pub append_upload :
      Resources → ConnectionInfo → Bytes → Connection → Option (Reply × Connection)
  append_upload res con_info upload c =
      if res.new_data
      then some (
        mhd_yes,
        record c {
          con_cls = some (record {
            body = some (take con_info.size (buffer con_info.body) ++ upload);
            size = con_info.size + length upload;
          });
        },
      )
      else some (mhd_no, record c { con_cls = none })

  unfoldable pub answer_to_connection :
      Resources → Request → Connection → Option (Reply × Connection)
  answer_to_connection res req c = elim c.con_cls [
    | none ↦ first_call res c
    | some con_info ↦
        if str_eq req.method (codes "POST") && not (length req.upload_data == 0)
        then append_upload res con_info req.upload_data c
        else (do
          handled ← dispatch res req con_info c.node
          (r, s) ← reply_of handled
          some (r, record c { node = s }))
  ]

  -- The buffer is freed when the request is over.
  unfoldable pub request_completed : Connection → Connection
  request_completed c = elim c.con_cls [ none ↦ c | some con_info ↦ record c { con_cls = none } ]
