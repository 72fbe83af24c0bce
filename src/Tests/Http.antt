-- ===== src/Tests/Http.antt =====
-- Requests to a node with the file `a`, or with the files `a` and `b`.
use distributed_file_system.Base.{
  ℕ, ◌≡◌, refl, ◌≢◌, inl, true, false, none, some, [], ◌∷◌, ◌++◌, arith, codes, str_eq, ◌>>=◌,
}
use distributed_file_system.Base.Int.{pos}
use distributed_file_system.Decimal.{atoi}
use distributed_file_system.Disk.Memory.{memory, memory-IsPosix}
use distributed_file_system.State.{IsValid, catalogue}
use distributed_file_system.FileOperation.{full_path, save_chunk_to_file}
use distributed_file_system.FileOperation.Save.{appears, flushed}
use distributed_file_system.GetFileDescriptor.{has_id, has_chunk}
use distributed_file_system.HandleNewChunk.{ConnectionInfo, success_text}
use distributed_file_system.HttpMain.{
  Reply, queued, json, octets, http_ok, http_not_found, Connection, answer_to_connection,
}
use distributed_file_system.HttpMain.Invariant.{answer_to_connection-IsValid}
use distributed_file_system.HttpMain.Upload.{feed, feed-joined}
use distributed_file_system.HttpMain.Chunks.{
  upload, download, upload_result, upload-save, download-upload,
}
use distributed_file_system.HttpMain.Misplaced.{download-upload_misplaced}
use distributed_file_system.Base.Int.{int_eq, to_int}
use distributed_file_system.Decimal.{
  emit, saturate, saturate_neg, scan_digits, scan_signed, show_nat, show_int, skip_spaces,
}
use distributed_file_system.Disk.Memory.{lookup, erase, strip, plain, children}
use distributed_file_system.State.{mutex_lock, mutex_unlock, mapping_of}
use distributed_file_system.State.Insert.{add_file, push_chunk_id, push_to_last, insert_to_struct}
use distributed_file_system.State.Print.{
  print_file, print_files, print_header, print_id, print_ids, print_storage_state,
}
use distributed_file_system.FileOperation.{
  snprintf, dir_path, file_exists, before_last_slash, is_listed, has_regular, make_parents,
  make_directories, create_directories, directory_has_files, save_new_chunk, write_chunk,
}
use distributed_file_system.HandleNewChunk.{chunk_of, handle_new_chunk}
use distributed_file_system.HttpMain.{dispatch, with_chunk, post_chunk, literal, respond, reply_of}
use distributed_file_system.Tests.{
  name_a, name_b, allocations, resources, file_a, table_ab, table_a-IsValid, table_ab-IsValid,
  disk_a, disk_ab, node_a, node_ab,
}

-- The body of the upload.
abbrev body_uv : ConnectionInfo
body_uv = record { body = some (codes "uv"); size = 2 }

abbrev empty_body : ConnectionInfo
empty_body = record { body = none; size = 0 }

-- A node with `a` has the body of a chunk 1 of `b`, and then the chunk.
abbrev before_upload : Connection memory
before_upload = record { con_cls = some body_uv; node = node_a }

abbrev after_upload : Connection memory
after_upload = record {
  con_cls = some body_uv;
  node = record {
    storage = table_ab;
    disk = (codes "data/b/1", some (codes "uv")) ∷ (codes "data/b", none) ∷ disk_a;
  };
}

abbrev uploaded : Reply
uploaded = queued http_ok (json (codes "{\"success\": true, \"chunkId\": 1, \"bytes\": 2}"))

upload_b :
    answer_to_connection memory resources (upload name_b (codes "1")) before_upload
    ≡ some (uploaded, after_upload)
unfolding answer_to_connection dispatch with_chunk post_chunk literal respond reply_of chunk_of
    handle_new_chunk success_text snprintf full_path dir_path file_exists before_last_slash
    is_listed has_regular make_parents make_directories create_directories directory_has_files
    save_new_chunk write_chunk save_chunk_to_file insert_to_struct add_file push_chunk_id
    push_to_last mutex_lock mutex_unlock print_file print_files print_header print_id print_ids
    print_storage_state emit saturate saturate_neg scan_digits scan_signed show_nat show_int
    skip_spaces atoi to_int int_eq str_eq lookup erase strip plain children
upload_b = refl

-- A node with `a` and `b` has the body of a chunk 7 of `a`, and then the chunk, in the entry of `b`.
abbrev before_misplaced : Connection memory
before_misplaced = record { con_cls = some body_uv; node = node_ab }

abbrev after_misplaced : Connection memory
after_misplaced = record {
  con_cls = some body_uv;
  node = record {
    storage = record {
      file_to_chunk_state =
          file_a
          ∷ record { file_path = name_b; chunk_ids = pos 1 ∷ pos 7 ∷ []; num_chunks = 2 }
          ∷ [];
      num_file_count = 2;
      lock = false;
    };
    disk = (codes "data/a/7", some (codes "uv")) ∷ disk_ab;
  };
}

abbrev uploaded_7 : Reply
uploaded_7 = queued http_ok (json (codes "{\"success\": true, \"chunkId\": 7, \"bytes\": 2}"))

upload_misplaced :
    answer_to_connection memory resources (upload name_a (codes "7")) before_misplaced
    ≡ some (uploaded_7, after_misplaced)
unfolding answer_to_connection dispatch with_chunk post_chunk literal respond reply_of chunk_of
    handle_new_chunk success_text snprintf full_path dir_path file_exists before_last_slash
    is_listed has_regular make_parents make_directories create_directories directory_has_files
    save_new_chunk write_chunk save_chunk_to_file insert_to_struct add_file push_chunk_id
    push_to_last mutex_lock mutex_unlock print_file print_files print_header print_id print_ids
    print_storage_state emit saturate saturate_neg scan_digits scan_signed show_nat show_int
    skip_spaces atoi to_int int_eq str_eq lookup erase strip plain children
upload_misplaced = refl

-- Later requests on new connections.
abbrev asking_b : Connection memory
asking_b = record { con_cls = some empty_body; node = after_upload.node }

abbrev asking_a : Connection memory
asking_a = record { con_cls = some empty_body; node = after_misplaced.node }

new_file :
    (file_exists memory (full_path name_b (atoi (codes "1"))) disk_a ≡ false)
    × (directory_has_files memory (dir_path name_b) disk_a ≡ false)
    × (appears memory (full_path name_b (atoi (codes "1"))) disk_a ≡ false)
    × (flushed memory (full_path name_b (atoi (codes "1"))) (codes "uv") disk_a ≡ true)
unfolding create_directories make_directories make_parents before_last_slash file_exists
    directory_has_files full_path dir_path snprintf is_listed has_regular emit saturate saturate_neg
    scan_digits scan_signed show_nat show_int skip_spaces atoi to_int int_eq str_eq lookup strip
    plain children has_chunk has_id catalogue mapping_of
new_file = (refl, refl, refl, refl)

new_chunk :
    (file_exists memory (full_path name_a (atoi (codes "7"))) disk_ab ≡ false)
    × (has_chunk name_a (atoi (codes "7")) (catalogue table_ab) ≡ false)
    × (directory_has_files memory (dir_path name_a) disk_ab ≡ true)
    × (appears memory (full_path name_a (atoi (codes "7"))) disk_ab ≡ false)
    × (flushed memory (full_path name_a (atoi (codes "7"))) (codes "uv") disk_ab ≡ true)
unfolding create_directories make_directories make_parents before_last_slash file_exists
    directory_has_files full_path dir_path snprintf is_listed has_regular emit saturate saturate_neg
    scan_digits scan_signed show_nat show_int skip_spaces atoi to_int int_eq str_eq lookup strip
    plain children has_chunk has_id catalogue mapping_of
new_chunk = (refl, refl, refl, refl, refl)

opened_b :
    memory.open_rdonly (full_path name_b (atoi (codes "1"))) after_upload.node.disk
    ≡ some (codes "data/b/1")
unfolding file_exists directory_has_files full_path dir_path snprintf is_listed has_regular emit
    saturate saturate_neg scan_digits scan_signed show_nat show_int skip_spaces atoi to_int int_eq
    str_eq lookup strip plain children has_chunk has_id catalogue mapping_of
opened_b = refl

download-upload_example :
    (uploaded ≡ queued http_ok (json (success_text (atoi (codes "1")) 2)))
    × (answer_to_connection memory resources (download name_b (codes "1")) asking_b
        ≡ some (queued http_ok (octets (codes "uv")), asking_b))
download-upload_example =
    download-upload memory memory-IsPosix resources resources name_b (codes "1") b'u' (b'v' ∷ [])
      before_upload after_upload asking_b uploaded empty_body (codes "data/b/1") table_a-IsValid
      refl upload_b new_file.0 new_file.2 new_file.3 (inl new_file.1) refl refl refl refl opened_b

catalogue_ab :
    catalogue table_ab
    ≡ (record { filename = name_a; chunk_ids = pos 0 ∷ [] } ∷ [])
      ++ record { filename = name_b; chunk_ids = pos 1 ∷ [] } ∷ []
unfolding catalogue
catalogue_ab = refl

b_not_a : name_b ≢ name_a
b_not_a e = ground arith

download-upload_misplaced_example :
    (uploaded_7 ≡ queued http_ok (json (success_text (atoi (codes "7")) 2)))
    × (memory.content (full_path name_a (atoi (codes "7"))) after_misplaced.node.disk
        ≡ some (codes "uv"))
    × (answer_to_connection memory resources (download name_a (codes "7")) asking_a
        ≡ some (queued http_not_found (json (codes "{\"error\":\"404 Not Found\"}")), asking_a))
download-upload_misplaced_example =
    download-upload_misplaced memory memory-IsPosix resources resources name_a (codes "7") b'u'
      (b'v' ∷ []) before_misplaced after_misplaced asking_a uploaded_7 empty_body
      (record { filename = name_a; chunk_ids = pos 0 ∷ [] } ∷ [])
      (record { filename = name_b; chunk_ids = pos 1 ∷ [] }) table_ab-IsValid refl upload_misplaced
      new_chunk.0 new_chunk.3 new_chunk.4 new_chunk.1 new_chunk.2 catalogue_ab b_not_a refl refl

answer_to_connection-IsValid_example : IsValid after_upload.node.storage
answer_to_connection-IsValid_example =
    answer_to_connection-IsValid memory memory-IsPosix resources (upload name_b (codes "1"))
      before_upload after_upload uploaded table_a-IsValid upload_b

upload-save_example :
    answer_to_connection memory resources (upload name_b (codes "1")) before_upload
    ≡ upload_result memory resources (atoi (codes "1")) 2 before_upload (
        save_chunk_to_file memory allocations
          (some name_b)
          (some (codes "uv"))
          (atoi (codes "1"))
          node_a)
upload-save_example =
    upload-save memory resources name_b (codes "1") b'u' (b'v' ∷ []) before_upload refl

abbrev fresh : Connection memory
fresh = record { con_cls = none; node = node_a }

not_empty : (c : ℕ) → c ∷ [] ≢ []
not_empty c e = absurd cc

feed-joined_example :
    (answer_to_connection memory resources (upload name_b (codes "1")) fresh >>= λ (r, c').
    feed memory resources (upload name_b (codes "1")) (codes "u" ∷ codes "v" ∷ []) c')
    ≡ some (record fresh { con_cls = some (record { body = some (codes "uv"); size = 2 }) })
feed-joined_example =
    feed-joined memory resources (upload name_b (codes "1")) refl refl refl (codes "u")
      (codes "v" ∷ []) fresh refl (not_empty b'u', (not_empty b'v', tt))

abbrev removing : Connection memory
removing = record { con_cls = some empty_body; node = node_ab }
