-- ===== src/Main.antt =====
-- storageLayer/main.c: the two threads of a storage node over one table. A call of the HTTP handler
-- is one step, since the daemon has one thread and the other thread only reads the table. A health
-- message takes two steps, one under the lock and one after it, and calls come in between: they may
-- free or move what its mappings point to.
pub mod Held
pub mod Reachability
pub mod Start
use distributed_file_system.Base.{
  ℕ, ◌-◌, ◌≡◌, ltb, leb, ◌==◌, ◌&&◌, not, if◌then◌else◌, Bool, true, false, Option, none, some,
  List, [], ◌∷◌, ◌++◌, get_elem?, set, Bytes,
}
use distributed_file_system.Disk.{Disk}
use distributed_file_system.Proto.{FileMappings, Protobuf}
use distributed_file_system.State.{FileStateCurrentInner, StorageStateOuter, storage_state_init}
use distributed_file_system.State.Encode.{snapshot, return_current_state_encoded_in_protobufs}
use distributed_file_system.State.Remove.{find_index}
use distributed_file_system.State.Destroy.{storage_state_destroy}
use distributed_file_system.FileOperation.{Node}
use distributed_file_system.HandleNewChunk.{ConnectionInfo}
use distributed_file_system.HttpMain.{
  Request, Resources, Reply, Connection, answer_to_connection, request_completed,
}
use distributed_file_system.TcpClient.{SendResult, send_frame, after_frame, going_on, stopped}

-- `num_chunks` of the last file.
unfoldable pub last_chunks : StorageStateOuter → ℕ
last_chunks s = elim (get_elem? s.file_to_chunk_state (s.num_file_count - 1)) [
  | none ↦ 0
  | some f ↦ f.num_chunks
]

-- Whether a removal of a name from `before` frees the string and the array of one of the first
-- `mapped` files.
unfoldable pub frees : (mapped : ℕ) → (before : StorageStateOuter) → Option Bytes → Bool
frees mapped before none = false
frees mapped before (some filename) =
    elim (find_index before.num_file_count 0 before.file_to_chunk_state filename) [
      | none ↦ false
      | some found ↦ elim found [ none ↦ false | some i ↦ ltb i mapped ]
    ]

-- Whether a call of the handler frees or moves what one of `mapped` mappings points to. The mappings
-- are of the first files, and new files come behind them. A call that lowers the count is a removal;
-- one that adds an id to the last file calls `realloc` on its array, which `moved` says to have moved.
unfoldable pub harms :
    (moved : Bool) → (mapped : ℕ) → (before after : StorageStateOuter) → Option Bytes → Bool
unfolding last_chunks frees
harms moved mapped before after x_filename =
    if ltb after.num_file_count before.num_file_count
    then frees mapped before x_filename
    else (moved
        && (before.num_file_count == after.num_file_count)
        && ltb (last_chunks before) (last_chunks after)
        && leb before.num_file_count mapped)

-- The same for the health message that is under way, if there is one.
unfoldable pub harms_pending :
    (moved : Bool)
    → Option StorageStateOuter
    → (before after : StorageStateOuter) → Option Bytes
    → Bool
harms_pending moved none before after x_filename = false
harms_pending moved (some t) before after x_filename =
    harms moved t.num_file_count before after x_filename

module _ (d : Disk) where
  -- The node; `*con_cls` of every connection; the table of the health message that is under way, as
  -- it was under the lock, and whether all that its mappings point to is still allocated and in
  -- place; whether the TCP thread has seen `shouldWork` and is in `recv`; `shouldWork`; whether each
  -- thread still runs.
  pub record System : Type 0 where
    pub node : Node d
    pub requests : List (Option ConnectionInfo)
    pub pending : Option StorageStateOuter
    pub intact : Bool
    pub in_recv : Bool
    pub should_work : Bool
    pub receiving : Bool
    pub serving : Bool

  -- Both threads have been started.
  unfoldable pub started : d.State → System
  started disk = record {
    node = record { storage = storage_state_init; disk = disk };
    requests = [];
    pending = none;
    intact = true;
    in_recv = false;
    should_work = true;
    receiving = true;
    serving = true;
  }

  module _ (p : Protobuf) where
    pub data Step : System → System → Type 0 where
      -- The HTTP thread: a connection, a call of the handler, the end of a request.
      accepted :
          (s : System) → s.serving ≡ true → Step s (record s { requests = s.requests ++ none ∷ [] })
      called :
          (s : System) (k : ℕ) (con_cls : Option ConnectionInfo) (res : Resources) (req : Request)
          (r : Reply) (c : Connection d) (moved : Bool)
          → s.serving ≡ true
          → get_elem? s.requests k ≡ some con_cls
          → answer_to_connection d res req (record { con_cls = con_cls; node = s.node })
            ≡ some (r, c)
          → Step s (record s {
            node = c.node;
            requests = set s.requests k c.con_cls;
            intact =
                s.intact
                && not (harms_pending moved s.pending s.node.storage c.node.storage req.x_filename);
          })
      completed :
          (s : System) (k : ℕ) (con_cls : Option ConnectionInfo)
          → get_elem? s.requests k ≡ some con_cls
          → Step s (record s {
            node = (request_completed d (record { con_cls = con_cls; node = s.node })).node;
            requests =
                set s.requests k
                  (request_completed d (record { con_cls = con_cls; node = s.node })).con_cls;
          })
      -- The daemon does not start, or the thread sees that the flag has fallen.
      not_started :
          (s : System)
          → s.serving ≡ true
          → s.requests ≡ []
          → Step s (record s { serving = false; should_work = false })
      stopped_serving :
          (s : System)
          → s.serving ≡ true
          → s.should_work ≡ false
          → Step s (record s { serving = false; should_work = false })
      -- The TCP thread: it reads the flag and waits in `recv`, or sees that the flag has fallen.
      entered_recv :
          (s : System)
          → s.receiving ≡ true
          → s.pending ≡ none
          → s.in_recv ≡ false
          → s.should_work ≡ true
          → Step s (record s { in_recv = true })
      stopped_receiving :
          (s : System)
          → s.receiving ≡ true
          → s.pending ≡ none
          → s.in_recv ≡ false
          → s.should_work ≡ false
          → Step s (record s { receiving = false; should_work = false })
      -- A message came, whatever the flag is by then, and the table is read; or `recv` fails, the
      -- connection is closed or the message does not unpack.
      asked :
          (s : System) (mappings : List FileMappings) (t : StorageStateOuter)
          → s.receiving ≡ true
          → s.in_recv ≡ true
          → s.pending ≡ none
          → snapshot s.node.storage ≡ some (mappings, t)
          → Step s (record s {
            pending = some s.node.storage;
            intact = true;
            in_recv = false;
            node = record s.node { storage = t };
          })
      lost :
          (s : System)
          → s.receiving ≡ true
          → s.in_recv ≡ true
          → s.pending ≡ none
          → Step s (record s { receiving = false; in_recv = false; should_work = false })
      -- The message is packed, its mappings are freed, and it is sent, or cannot be sent. `count` is
      -- what the loop of the frees reads while calls may go on. A fault and the `exit` for a size that
      -- cannot be sent end the process: no step follows.
      told :
          (s : System) (t : StorageStateOuter) (allocated : Bool) (count : ℕ → ℕ) (buf : Bytes)
          (leaked : List FileMappings) (answers : List SendResult)
          → s.pending ≡ some t
          → return_current_state_encoded_in_protobufs p allocated s.intact t count
            ≡ some (buf, leaked)
          → after_frame (send_frame answers buf).status ≡ going_on
          → Step s (record s { pending = none })
      untold :
          (s : System) (t : StorageStateOuter) (allocated : Bool) (count : ℕ → ℕ) (buf : Bytes)
          (leaked : List FileMappings) (answers : List SendResult)
          → s.pending ≡ some t
          → return_current_state_encoded_in_protobufs p allocated s.intact t count
            ≡ some (buf, leaked)
          → after_frame (send_frame answers buf).status ≡ stopped
          → Step s (record s { pending = none; receiving = false; should_work = false })

    -- Any number of steps.
    pub data Reaches (s : System) : System → Type 0 where
      here : Reaches s s
      next : {t u : System} → Reaches s t → Step t u → Reaches s u

  -- The end of `main`, when both threads have returned: what is freed.
  unfoldable pub main_end : System → Option (List FileStateCurrentInner)
  main_end s = storage_state_destroy s.node.storage
