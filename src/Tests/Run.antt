-- ===== src/Tests/Run.antt =====
-- A run of a node: a chunk is uploaded while a health message is packed.
use distributed_file_system.Base.{◌≡◌, refl, true, false, none, some, [], ◌∷◌, codes, str_eq}
use distributed_file_system.Decimal.{atoi}
use distributed_file_system.Disk.Memory.{memory, memory-IsPosix}
use distributed_file_system.State.{IsValid, catalogue}
use distributed_file_system.FileOperation.{Node, full_path, save_chunk_to_file}
use distributed_file_system.HandleNewChunk.{ConnectionInfo, success_text}
use distributed_file_system.HttpMain.{Reply, queued, json, http_ok, answer_to_connection}
use distributed_file_system.HttpMain.Chunks.{upload}
use distributed_file_system.Base.Int.{int_eq, to_int}
use distributed_file_system.Decimal.{
  emit, saturate, saturate_neg, scan_digits, scan_signed, show_nat, show_int, skip_spaces,
}
use distributed_file_system.Disk.Memory.{lookup, erase, strip, plain, children}
use distributed_file_system.State.{mutex_lock, mutex_unlock}
use distributed_file_system.State.Insert.{add_file, push_chunk_id, push_to_last, insert_to_struct}
use distributed_file_system.State.Print.{
  print_file, print_files, print_header, print_id, print_ids, print_storage_state,
}
use distributed_file_system.FileOperation.{
  snprintf, dir_path, file_exists, before_last_slash, is_listed, has_regular, make_parents,
  make_directories, create_directories, directory_has_files, save_new_chunk, write_chunk,
}
use distributed_file_system.HandleNewChunk.{chunk_of, handle_new_chunk}
use distributed_file_system.HttpMain.{dispatch, with_chunk, post_chunk, literal, respond, reply_of}
use distributed_file_system.Proto.{health}
use distributed_file_system.State.{StorageStateOuter, storage_state_init}
use distributed_file_system.State.Encode.{
  snapshot, make_mappings, return_current_state_encoded_in_protobufs,
}
use distributed_file_system.HttpMain.{mhd_yes, first_call, append_upload, buffer}
use distributed_file_system.Main.{
  System, started, accepted, called, entered_recv, asked, harms, harms_pending, Reaches, here, next,
}
use distributed_file_system.Main.Held.{IsHeld}
use distributed_file_system.Base.{◌⊎◌, ◌==◌}
use distributed_file_system.Main.Reachability.{Reaches-IsValid, Reaches-pack}
use distributed_file_system.Base.{Bool, Option, List, if◌then◌else◌}
use distributed_file_system.Tests.{name_b, resources, file_b}
use distributed_file_system.Tests.Format.{format, format-HasSizes}

abbrev system_0 : System memory
system_0 = started memory []

abbrev empty_node : Node memory
empty_node = record { storage = storage_state_init; disk = [] }

abbrev full_node : Node memory
full_node = record {
  storage = record { file_to_chunk_state = file_b ∷ []; num_file_count = 1; lock = false };
  disk = (codes "data/b/1", some (codes "uv")) ∷ (codes "data/b", none) ∷ (codes "data", none) ∷ [];
}

-- The states of the run: a connection, its first call, the body, a message of the master, the reading
-- of the table, and the last call.
abbrev at_work :
    List (Option ConnectionInfo)
    → Option StorageStateOuter
    → (in_recv : Bool) → Node memory
    → System memory
at_work requests pending in_recv node = record {
  node = node;
  requests = requests;
  pending = pending;
  intact = true;
  in_recv = in_recv;
  should_work = true;
  receiving = true;
  serving = true;
}

abbrev no_body : ConnectionInfo
no_body = record { body = none; size = 0 }

abbrev whole_body : ConnectionInfo
whole_body = record { body = some (codes "uv"); size = 2 }

abbrev system_5 : System memory
system_5 = at_work (some whole_body ∷ []) (some storage_state_init) false full_node

first_answer :
    answer_to_connection memory resources
      (upload name_b (codes "1"))
      (record { con_cls = none; node = empty_node })
    ≡ some (mhd_yes, record { con_cls = some no_body; node = empty_node })
unfolding answer_to_connection first_call
first_answer = refl

piece_answer :
    answer_to_connection memory resources
      (record (upload name_b (codes "1")) { upload_data = codes "uv" })
      (record { con_cls = some no_body; node = empty_node })
    ≡ some (mhd_yes, record { con_cls = some whole_body; node = empty_node })
unfolding answer_to_connection append_upload buffer str_eq
piece_answer = refl

abbrev uploaded : Reply
uploaded = queued http_ok (json (codes "{\"success\": true, \"chunkId\": 1, \"bytes\": 2}"))

last_answer :
    answer_to_connection memory resources
      (upload name_b (codes "1"))
      (record { con_cls = some whole_body; node = empty_node })
    ≡ some (uploaded, record { con_cls = some whole_body; node = full_node })
unfolding answer_to_connection dispatch with_chunk post_chunk literal respond reply_of chunk_of
    handle_new_chunk success_text snprintf full_path dir_path file_exists before_last_slash
    is_listed has_regular make_parents make_directories create_directories directory_has_files
    save_new_chunk write_chunk save_chunk_to_file insert_to_struct add_file push_chunk_id
    push_to_last mutex_lock mutex_unlock print_file print_files print_header print_id print_ids
    print_storage_state emit saturate saturate_neg scan_digits scan_signed show_nat show_int
    skip_spaces atoi to_int int_eq str_eq lookup erase strip plain children storage_state_init
last_answer = refl

snapshot_empty : snapshot storage_state_init ≡ some ([], storage_state_init)
unfolding snapshot make_mappings mutex_lock mutex_unlock storage_state_init
snapshot_empty = refl

-- Up to the body of the upload.
run_3 : Reaches memory format system_0 (at_work (some whole_body ∷ []) none false empty_node)
unfolding started harms_pending
run_3 =
    next
      (next (next here (accepted system_0 refl)) (
        called (at_work (none ∷ []) none false empty_node) 0 none resources
          (upload name_b (codes "1")) mhd_yes (record { con_cls = some no_body; node = empty_node })
          false refl refl first_answer))
      (called (at_work (some no_body ∷ []) none false empty_node) 0 (some no_body) resources
        (record (upload name_b (codes "1")) { upload_data = codes "uv" }) mhd_yes
        (record { con_cls = some whole_body; node = empty_node }) false refl refl piece_answer)

run : Reaches memory format system_0 system_5
unfolding harms_pending harms storage_state_init
run =
    next
      (next
        (next run_3
          (entered_recv (at_work (some whole_body ∷ []) none false empty_node) refl refl refl refl))
        (asked (at_work (some whole_body ∷ []) none true empty_node) [] storage_state_init refl refl
          refl snapshot_empty))
      (called (at_work (some whole_body ∷ []) (some storage_state_init) false empty_node) 0
        (some whole_body) resources (upload name_b (codes "1")) uploaded
        (record { con_cls = some whole_body; node = full_node }) false refl refl last_answer)

Reaches-IsValid_example : IsValid full_node.storage
Reaches-IsValid_example = Reaches-IsValid memory memory-IsPosix format [] system_5 run

Reaches-pack_example :
    let r =
      return_current_state_encoded_in_protobufs format true true storage_state_init (λ i. 1) in
    ((true ≡ false) × (r ≡ none))
    ⊎ ((true ≡ true)
        × IsHeld (catalogue storage_state_init) (catalogue full_node.storage)
        × (r ≡ (
            if 1 == storage_state_init.num_file_count
            then some (format.pack (health (catalogue storage_state_init)), [])
            else none)))
Reaches-pack_example =
    Reaches-pack memory memory-IsPosix format format-HasSizes [] system_5 storage_state_init run
      refl
