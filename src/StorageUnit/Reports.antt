-- ===== src/StorageUnit/Reports.antt =====
-- What a health message changes of the locations, and the locations of a whole file.
use distributed_file_system.Base.{
  ◌≡◌, ◌≢◌, refl, sym, ◌∙◌, Bool, Bool-cases, true, false, ◌||◌, inl, inr, Option, none, some, List,
  [], ◌∷◌, ◌++◌, append-nil, append_assoc, All, arith, Bytes, str_eq, str_eq_iff, str_eq_refl,
  if◌then◌else◌,
}
use distributed_file_system.Base.Int.{ℤ}
use distributed_file_system.Proto.{FileMappings}
use distributed_file_system.GetFileDescriptor.{has_chunk}
use distributed_file_system.StorageUnit.{
  ConnectionData, TcpStorage, contains, update_first, update_state, get_location, has_name,
  locate_file, get_file_locations,
}
use distributed_file_system.StorageUnit.Location.{is_held, get_location-is_held, contains-append}

-- The connection that a health message is about.
unfoldable pub find_connection : Bytes → List ConnectionData → Option ConnectionData
find_connection id [] = none
find_connection id (c ∷ cs) = if str_eq c.connection_id id then some c else find_connection id cs

update_first-is_held :
    (id : Bytes) (ms : List FileMappings) (f : Bytes) (z : ℤ) (cs : List ConnectionData)
    (c : ConnectionData)
    → find_connection id cs ≡ some c
    → has_chunk f z ms ≡ true
    → is_held c.ip f z (update_first id ms cs) ≡ true
unfolding find_connection update_first is_held
update_first-is_held id ms f z [] c found has = absurd cc
update_first-is_held id ms f z (k ∷ cs) c found has =
    elim (Bool-cases (str_eq k.connection_id id)) [
      | inl hit ↦ let same : k ≡ c = ground arith in rw (hit, same, str_eq_refl c.ip, has) refl
      | inr miss ↦
          let later : find_connection id cs ≡ some c = ground arith in
          rw (miss, update_first-is_held id ms f z cs c later has) (ground arith)
    ]

-- Once a node has told a table that has the chunk, by the look-up that the node makes for a
-- download, the master names its address for the chunk.
pub get_location-update_state :
    (id : Bytes) (ms : List FileMappings) (f : Bytes) (z : ℤ) (s : TcpStorage) (c : ConnectionData)
    → find_connection id s.connections ≡ some c
    → has_chunk f z ms ≡ true
    → contains c.ip (get_location f z (update_state id ms s)) ≡ true
unfolding update_state
get_location-update_state id ms f z s c found has =
    (get_location-is_held f z (update_state id ms s)).0 c.ip
    ∙ update_first-is_held id ms f z s.connections c found has

-- Whether a table has an entry of the name, and the addresses of the connections whose table has.
unfoldable pub has_file : Bytes → List FileMappings → Bool
has_file f [] = false
has_file f (m ∷ ms) = str_eq m.filename f || has_file f ms

unfoldable pub addresses_of : Bytes → List ConnectionData → List Bytes
addresses_of f [] = []
addresses_of f (c ∷ cs) =
    if has_file f c.files_to_chunks then c.ip ∷ addresses_of f cs else addresses_of f cs

has_name-has_file : (f : Bytes) (ms : List FileMappings) → has_name false f ms ≡ has_file f ms
unfolding has_name has_file
has_name-has_file f [] = refl
has_name-has_file f (m ∷ ms) = rw (has_name-has_file f ms) (ground arith)

locate_file-addresses_of :
    (f : Bytes) (cs : List ConnectionData) (res : List Bytes)
    → All (λ c. c.ip ≢ f) cs
    → contains f res ≡ false
    → locate_file f cs res ≡ res ++ addresses_of f cs
unfolding locate_file addresses_of
locate_file-addresses_of f [] res h new = sym (append-nil res)
locate_file-addresses_of f (c ∷ cs) res (hc, h) new =
    elim (Bool-cases (has_file f c.files_to_chunks)) [
      | inl has ↦
          let new' : contains f (res ++ c.ip ∷ []) ≡ false =
            contains-append f c.ip res ∙ ground (arith, str_eq_iff c.ip f) in
          rw (new, has_name-has_file f c.files_to_chunks, has)
            (locate_file-addresses_of f cs (res ++ c.ip ∷ []) h new'
              ∙ append_assoc res (c.ip ∷ []) (addresses_of f cs))
      | inr none_here ↦
          rw (new, has_name-has_file f c.files_to_chunks, none_here)
            (locate_file-addresses_of f cs res h new)
    ]

-- For a file that is not named like an address, the locations are the addresses of the connections
-- whose table has an entry of the name, one for each connection: an address of two connections is
-- named twice, since the loop asks the list of addresses for the file's name.
pub get_file_locations-addresses_of :
    (f : Bytes) (s : TcpStorage)
    → All (λ c. c.ip ≢ f) s.connections
    → get_file_locations f s ≡ addresses_of f s.connections
unfolding get_file_locations
get_file_locations-addresses_of f s h =
    locate_file-addresses_of f s.connections [] h (unfold contains in refl)
