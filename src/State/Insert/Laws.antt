-- ===== src/State/Insert/Laws.antt =====
-- What `insert_to_struct` does on every branch.
use distributed_file_system.Base.{
  ℕ, suc, ◌≡◌, refl, ap, sym, ◌∙◌, ◌⊎◌, inl, inr, Bool, Bool-cases, true, false, ◌&&◌, Option, none,
  some, List, [], ◌∷◌, length, Bytes, ◌>>=◌,
}
use distributed_file_system.Base.Int.{ℤ}
use distributed_file_system.Proto.{FileMappings}
use distributed_file_system.State.{
  StorageStateOuter, mutex_unlock, catalogue, IsValid, length-catalogue, mutex_lock_lem,
  mutex_unlock_lem,
}
use distributed_file_system.State.Print.{print_storage_state, print_storage_state-render}
use distributed_file_system.State.Insert.{
  Allocations, add_file, push_to_last, insert_to_struct, add_to_last, inserted, accepts,
  add_to_last-append,
}
use distributed_file_system.State.Insert.Steps.{HasArrays, push_to_last_lem, add_file_lem}

accepts-count :
    (a : Allocations) (s : StorageStateOuter)
    → IsValid s
    → ((accepts a true (catalogue s) ≡ false) × (s.num_file_count ≡ 0))
      ⊎ ((i : ℕ) × (accepts a true (catalogue s) ≡ true) × (s.num_file_count ≡ suc i))
unfolding accepts
accepts-count a s v = by_length (catalogue s) s.num_file_count (length-catalogue s v)
  where
    by_length :
        (ms : List FileMappings) (n : ℕ)
        → length ms ≡ n
        → ((accepts a true ms ≡ false) × (n ≡ 0))
          ⊎ ((i : ℕ) × (accepts a true ms ≡ true) × (n ≡ suc i))
    by_length [] n e = inl (refl, sym e)
    by_length (m ∷ ms) n e = inr (length ms, refl, sym e)

add_file_refused :
    (a : Allocations) (file_path : Bytes) (s : StorageStateOuter)
    → (a.files && a.path) ≡ false
    → add_file a file_path s ≡ none
unfolding add_file
add_file_refused a file_path s refused = rw refused refl

push_to_last_empty :
    (grown : Bool) (chunk_id : ℤ) (s : StorageStateOuter)
    → s.num_file_count ≡ 0
    → push_to_last grown chunk_id s.num_file_count s ≡ none
unfolding push_to_last
push_to_last_empty grown chunk_id s n = ap (λ k. push_to_last grown chunk_id k s) n

-- What is left of an insertion once there is an entry for the id.
abbrev push_and_finish : Bool → ℤ → StorageStateOuter → Option StorageStateOuter
push_and_finish grown chunk_id s = do
  s ← push_to_last grown chunk_id s.num_file_count s
  s ← mutex_unlock s
  (_, s) ← print_storage_state s
  some s

push_and_finish_lem :
    (grown : Bool) (chunk_id : ℤ) (i : ℕ) (s : StorageStateOuter)
    → s.num_file_count ≡ suc i
    → s.lock ≡ true
    → HasArrays s
    → (t : StorageStateOuter) × (push_and_finish grown chunk_id s ≡ some t)
      × IsValid t
      × (catalogue t ≡ add_to_last grown chunk_id (catalogue s))
push_and_finish_lem grown chunk_id i s n l h =
    let (t, pushed, ht, same, lock) = push_to_last_lem grown chunk_id i s n h in
    let u : StorageStateOuter = record t { lock = false } in
    let v : IsValid u = record { unlocked = refl; allocated = ht.allocated; chunks = ht.chunks } in
    (
      u,
      rw (pushed, mutex_unlock_lem t (lock ∙ l), print_storage_state-render u v) refl,
      v,
      unfold catalogue in same,
    )

-- On a valid state an insertion faults exactly when it has no entry to write to: the directory has
-- files but the table is empty, or the table or the path could not be allocated. Otherwise the
-- state stays valid and unlocked, and its table is the one of `inserted`: the id goes to a new last
-- entry of the path, or where the directory has files to the entry that is last, whatever its name.
-- If the chunk array of that entry cannot grow, the entry stays without the id.
pub insert_to_struct-inserted :
    (a : Allocations) (file_path : Bytes) (chunk_id : ℤ) (directory_has_file : Bool)
    (s : StorageStateOuter)
    → IsValid s
    → ((accepts a directory_has_file (catalogue s) ≡ false)
        × (insert_to_struct a file_path chunk_id directory_has_file s ≡ none))
      ⊎ ((t : StorageStateOuter) × (accepts a directory_has_file (catalogue s) ≡ true)
          × (insert_to_struct a file_path chunk_id directory_has_file s ≡ some t)
          × IsValid t
          × (catalogue t ≡ inserted a file_path chunk_id directory_has_file (catalogue s)))
unfolding insert_to_struct inserted
insert_to_struct-inserted a file_path chunk_id true s v = elim (accepts-count a s v) [
  | inl (refused, n) ↦ inl (
    refused,
    rw (mutex_lock_lem s v.unlocked)
        (rw (push_to_last_empty a.chunks chunk_id (record s { lock = true }) n) refl),
  )
  | inr (i, accepted, n) ↦
      let s' : StorageStateOuter = record s { lock = true } in
      let h : HasArrays s' = record { allocated = v.allocated; chunks = v.chunks } in
      let (t, pushed, u, same) = push_and_finish_lem a.chunks chunk_id i s' n refl h in
      inr (t, accepted, rw (mutex_lock_lem s v.unlocked) pushed, u, same ∙ unfold catalogue in refl)
]
insert_to_struct-inserted a file_path chunk_id false s v = elim (Bool-cases (a.files && a.path)) [
  | inl ok ↦
      let s' : StorageStateOuter = record s { lock = true } in
      let h : HasArrays s' = record { allocated = v.allocated; chunks = v.chunks } in
      let (w, added, hw, more, n, l) = add_file_lem a file_path s' ok h in
      let (t, pushed, u, same) = push_and_finish_lem a.chunks chunk_id _ w n l hw in
      inr (
        t,
        unfold accepts in ok,
        rw (mutex_lock_lem s v.unlocked, added) pushed,
        u,
        same ∙ rw (more, add_to_last-append) (unfold catalogue in refl),
      )
  | inr refused ↦ inl (
    unfold accepts in refused,
    rw
        (
          mutex_lock_lem s v.unlocked,
          add_file_refused a file_path (record s { lock = true }) refused,
        )
        refl,
  )
]
