-- ===== src/StorageUnit/FileList.antt =====
-- The names of the files that the master lists.
use distributed_file_system.Base.{
  ◌≡◌, refl, ◌∙◌, Bool, Bool-cases, false, ◌||◌, not, inl, inr, List, [], ◌∷◌, ◌++◌, arith, Bytes,
  str_eq, str_eq_iff, if◌then◌else◌,
}
use distributed_file_system.Proto.{FileMappings}
use distributed_file_system.StorageUnit.{
  ConnectionData, TcpStorage, contains, list_files, list_connections, get_file_list,
}
use distributed_file_system.StorageUnit.Location.{AreDistinct, AreDistinct-append, contains-append}
use distributed_file_system.StorageUnit.Reports.{has_file}

-- Whether some connection has an entry of the name.
unfoldable pub is_known : Bytes → List ConnectionData → Bool
is_known f [] = false
is_known f (c ∷ cs) = has_file f c.files_to_chunks || is_known f cs

pushed_name :
    (f g : Bytes) (res : List Bytes)
    → contains f (if not (contains g res) then res ++ g ∷ [] else res)
      ≡ (contains f res || str_eq g f)
pushed_name f g res = grind (arith, contains-append f g res, str_eq_iff g f)

list_files_lem :
    (f : Bytes) (ms : List FileMappings) (res : List Bytes)
    → contains f (list_files ms res) ≡ (contains f res || has_file f ms)
unfolding list_files has_file
list_files_lem f [] res = ground arith
list_files_lem f (m ∷ ms) res =
    list_files_lem f ms (if not (contains m.filename res) then res ++ m.filename ∷ [] else res)
    ∙ rw (pushed_name f m.filename res) (ground arith)

list_connections_lem :
    (f : Bytes) (cs : List ConnectionData) (res : List Bytes)
    → contains f (list_connections cs res) ≡ (contains f res || is_known f cs)
unfolding list_connections is_known
list_connections_lem f [] res = ground arith
list_connections_lem f (c ∷ cs) res =
    list_connections_lem f cs (list_files c.files_to_chunks res)
    ∙ rw (list_files_lem f c.files_to_chunks res) (ground arith)

list_files-AreDistinct :
    (ms : List FileMappings) (res : List Bytes) → AreDistinct res → AreDistinct (list_files ms res)
unfolding list_files
list_files-AreDistinct [] res h = h
list_files-AreDistinct (m ∷ ms) res h =
    list_files-AreDistinct ms _ (elim (Bool-cases (contains m.filename res)) [
      | inl known ↦ rw known h
      | inr new ↦ rw new (AreDistinct-append res m.filename h new)
    ])

list_connections-AreDistinct :
    (cs : List ConnectionData) (res : List Bytes)
    → AreDistinct res
    → AreDistinct (list_connections cs res)
unfolding list_connections
list_connections-AreDistinct [] res h = h
list_connections-AreDistinct (c ∷ cs) res h =
    list_connections-AreDistinct cs _ (list_files-AreDistinct c.files_to_chunks res h)

-- The list of files has exactly the names that some connection has an entry of, each once.
pub get_file_list-is_known :
    (s : TcpStorage)
    → ((f : Bytes) → contains f (get_file_list s) ≡ is_known f s.connections)
      × AreDistinct (get_file_list s)
unfolding get_file_list
get_file_list-is_known s = (
  λ f. list_connections_lem f s.connections [] ∙ unfold contains in refl,
  list_connections-AreDistinct s.connections [] tt,
)
