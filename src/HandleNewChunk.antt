-- ===== src/HandleNewChunk.antt =====
-- storageLayer/httpServer/handleNewChunk.c and the structs that it takes: the body of an upload is
-- saved as a chunk, and the answer is made.
use distributed_file_system.Base.{
  ℕ, Bool, true, false, Option, none, some, ◌++◌, take, Bytes, codes, ◌>>=◌, if◌then◌else◌,
}
use distributed_file_system.Base.Int.{ℤ}
use distributed_file_system.Decimal.{show_nat, show_int}
use distributed_file_system.Disk.{Disk}
use distributed_file_system.State.Insert.{Allocations}
use distributed_file_system.FileOperation.{Node, snprintf, save_chunk_to_file}

-- `connection_info_t`: the body of a request, as far as it has come. `none` is NULL.
pub record ConnectionInfo : Type 0 where
  pub body : Option Bytes
  pub size : ℕ

-- The variables of the handler that the answer is made of: `page`, `none` for NULL, and
-- `should_free`.
pub record Page : Type 0 where
  pub page : Option Bytes
  pub should_free : Bool

-- The bytes of the body that `data` and `size` stand for.
unfoldable pub chunk_of : ConnectionInfo → Option Bytes
chunk_of c = elim c.body [ none ↦ none | some bytes ↦ some (take c.size bytes) ]

-- "{\"success\": true, \"chunkId\": %d, \"bytes\": %zu}", into 200 bytes
unfoldable pub success_text : ℤ → ℕ → Bytes
unfolding snprintf
success_text chunk_id size = snprintf 200 (
    codes "{\"success\": true, \"chunkId\": "
    ++ show_int chunk_id
    ++ codes ", \"bytes\": "
    ++ show_nat size
    ++ codes "}")

module _ (d : Disk) where
  -- `text_ok` says whether the 200 bytes of the answer can be allocated. The page of the caller is
  -- left as it is where the answer is not made.
  unfoldable pub handle_new_chunk :
      Allocations
      → (text_ok : Bool) → ConnectionInfo
      → Page
      → Bytes
      → ℤ
      → Node d
      → Option (Bool × Page × Node d)
  unfolding chunk_of success_text
  handle_new_chunk a text_ok con_info page filename chunk_id s = do
    (write_result, t) ← save_chunk_to_file d a (some filename) (chunk_of con_info) chunk_id s
    some (
        if write_result
        then (if text_ok
            then (
              true,
              record { page = some (success_text chunk_id con_info.size); should_free = true },
              t,
            )
            else (true, page, t))
        else (false, page, t))
