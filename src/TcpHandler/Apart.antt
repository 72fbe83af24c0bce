-- ===== src/TcpHandler/Apart.antt =====
-- What the master keeps of one connection depends on the turns of its own task only.
use distributed_file_system.Base.{
  ◌≡◌, refl, inl, inr, Bool-cases, true, false, Option, none, some, List, [], ◌∷◌, ◌++◌, arith,
  Bytes, str_eq, str_eq_iff, str_eq_refl,
}
use distributed_file_system.Proto.{FileMappings, MessageFromStorageToMaster, not_set, join, health}
use distributed_file_system.StorageUnit.{
  ConnectionData, TcpStorage, insert, retain_others, update_first, update_state,
}
use distributed_file_system.StorageUnit.Reports.{find_connection}
use distributed_file_system.TcpHandler.Tasks.{handle_message}

-- What a message changes of the connection that it came on.
unfoldable pub own_message :
    (connection_id addr : Bytes)
    → Option MessageFromStorageToMaster
    → Option ConnectionData
    → Option ConnectionData
own_message id addr none c = c
own_message id addr (some not_set) c = c
own_message id addr (some join) none =
    some (record { connection_id = id; ip = addr; files_to_chunks = [] })
own_message id addr (some join) (some c) = some c
own_message id addr (some (health ms)) none = none
own_message id addr (some (health ms)) (some c) = some (record c { files_to_chunks = ms })

find_connection-append_other :
    (id : Bytes) (cs : List ConnectionData) (d : ConnectionData)
    → str_eq d.connection_id id ≡ false
    → find_connection id (cs ++ d ∷ []) ≡ find_connection id cs
unfolding find_connection
find_connection-append_other id [] d apart = rw apart refl
find_connection-append_other id (c ∷ cs) d apart =
    rw (find_connection-append_other id cs d apart) refl

find_connection-insert_self :
    (id addr : Bytes) (cs : List ConnectionData)
    → find_connection id (cs ++ record { connection_id = id; ip = addr; files_to_chunks = [] } ∷ [])
      ≡ own_message id addr (some join) (find_connection id cs)
unfolding find_connection own_message
find_connection-insert_self id addr [] = rw (str_eq_refl id) refl
find_connection-insert_self id addr (c ∷ cs) = elim (Bool-cases (str_eq c.connection_id id)) [
  | inl hit ↦ rw hit refl
  | inr miss ↦ rw miss (find_connection-insert_self id addr cs)
]

pub find_connection-retain_self :
    (id : Bytes) (cs : List ConnectionData) → find_connection id (retain_others id cs) ≡ none
unfolding find_connection retain_others
find_connection-retain_self id [] = refl
find_connection-retain_self id (c ∷ cs) = elim (Bool-cases (str_eq c.connection_id id)) [
  | inl hit ↦ rw hit (find_connection-retain_self id cs)
  | inr miss ↦ rw (miss, miss) (find_connection-retain_self id cs)
]

-- Ids that are not equal are not both equal to a third.
not_both : (a b c : Bytes) → str_eq a b ≡ false → str_eq c a ≡ true → str_eq c b ≡ false
not_both a b c apart hit = ground (arith, str_eq_iff c a)

pub find_connection-retain_others :
    (own id : Bytes) (cs : List ConnectionData)
    → str_eq own id ≡ false
    → find_connection id (retain_others own cs) ≡ find_connection id cs
unfolding find_connection retain_others
find_connection-retain_others own id [] apart = refl
find_connection-retain_others own id (c ∷ cs) apart =
    elim (Bool-cases (str_eq c.connection_id own)) [
      | inl hit ↦
          rw (hit, not_both own id c.connection_id apart hit)
            (find_connection-retain_others own id cs apart)
      | inr miss ↦ rw (miss, find_connection-retain_others own id cs apart) refl
    ]

find_connection-update_self :
    (id addr : Bytes) (ms : List FileMappings) (cs : List ConnectionData)
    → find_connection id (update_first id ms cs)
      ≡ own_message id addr (some (health ms)) (find_connection id cs)
unfolding find_connection update_first own_message
find_connection-update_self id addr ms [] = refl
find_connection-update_self id addr ms (c ∷ cs) = elim (Bool-cases (str_eq c.connection_id id)) [
  | inl hit ↦ rw (hit, hit) refl
  | inr miss ↦ rw (miss, miss) (find_connection-update_self id addr ms cs)
]

find_connection-update_other :
    (own id : Bytes) (ms : List FileMappings) (cs : List ConnectionData)
    → str_eq own id ≡ false
    → find_connection id (update_first own ms cs) ≡ find_connection id cs
unfolding find_connection update_first
find_connection-update_other own id ms [] apart = refl
find_connection-update_other own id ms (c ∷ cs) apart =
    elim (Bool-cases (str_eq c.connection_id own)) [
      | inl hit ↦ let other = not_both own id c.connection_id apart hit in rw (hit, other) refl
      | inr miss ↦ rw (miss, find_connection-update_other own id ms cs apart) refl
    ]

pub handle_message-other :
    (own addr id : Bytes) (msg : Option MessageFromStorageToMaster) (s : TcpStorage)
    → str_eq own id ≡ false
    → find_connection id (handle_message own addr msg s).connections
      ≡ find_connection id s.connections
unfolding handle_message insert update_state
handle_message-other own addr id none s apart = refl
handle_message-other own addr id (some not_set) s apart = refl
handle_message-other own addr id (some join) s apart =
    find_connection-append_other id s.connections _ apart
handle_message-other own addr id (some (health ms)) s apart =
    find_connection-update_other own id ms s.connections apart

pub handle_message-own :
    (id addr : Bytes) (msg : Option MessageFromStorageToMaster) (s : TcpStorage)
    → find_connection id (handle_message id addr msg s).connections
      ≡ own_message id addr msg (find_connection id s.connections)
unfolding handle_message insert update_state own_message
handle_message-own id addr none s = refl
handle_message-own id addr (some not_set) s = refl
handle_message-own id addr (some join) s = find_connection-insert_self id addr s.connections
handle_message-own id addr (some (health ms)) s =
    find_connection-update_self id addr ms s.connections
