-- ===== src/State/Encode.antt =====
-- storageLayer/state/fileState.c, `return_current_state_encoded_in_protobufs`: the health message.
-- The lock is held only while the mappings are made; they are packed and freed after it is given
-- back. A mapping points to the string and the array of a table entry, with the number of ids copied.
-- It is modelled by what they hold under the lock, which is what is packed if they are still allocated
-- and in place by then; if the other thread has freed or moved one of them, packing is a fault.
use distributed_file_system.Base.{
  ℕ, zero, suc, ◌+◌, ◌-◌, ltb, inl, inr, Bool-cases, ◌≤◌, ◌≡◌, refl, ap, Bool, true, false, Option,
  none, some, List, [], ◌∷◌, map, length, take, drop, get_elem?, All, arith, Bytes, ◌>>=◌,
  if◌then◌else◌, leb, get_elem?-total, drop-get_elem?, sym, ◌∙◌, ◌&&◌,
}
use distributed_file_system.Base.Int.{ℤ}
use distributed_file_system.Proto.{
  FileMappings, MessageFromStorageToMaster, health, Protobuf, HasSizes,
}
use distributed_file_system.State.{
  FileStateCurrentInner, StorageStateOuter, mutex_lock, mutex_unlock, mapping_of, catalogue,
  HasChunks, IsValid, length-catalogue, mutex_lock_lem, mutex_unlock_lem,
}

-- `n_chunk_ids` and `chunk_ids` of a mapping: the first `n` elements of the array.
unfoldable pub read_chunks : ℕ → List ℤ → Option (List ℤ)
read_chunks n ids = if leb n (length ids) then some (take n ids) else none

-- The loop over `i`, of which `rounds` rounds are left.
unfoldable pub make_mappings :
    (rounds i : ℕ) → List FileStateCurrentInner → Option (List FileMappings)
make_mappings zero i files = some []
make_mappings (suc rounds) i files = do
  f ← get_elem? files i
  ids ← read_chunks f.num_chunks f.chunk_ids
  rest ← make_mappings rounds (suc i) files
  some (record { filename = f.file_path; chunk_ids = ids } ∷ rest)

-- Under the lock.
unfoldable pub snapshot : StorageStateOuter → Option (List FileMappings × StorageStateOuter)
snapshot s = do
  s ← mutex_lock s
  mappings ← make_mappings s.num_file_count 0 s.file_to_chunk_state
  s ← mutex_unlock s
  some (mappings, s)

-- The loop that frees, from round `i` on: the mappings that it leaves. `count i` is the
-- `num_file_count` that round `i` reads, without the lock. There is no mapping behind the last one.
unfoldable pub free_mappings :
    (count : ℕ → ℕ) → (i : ℕ) → List FileMappings → Option (List FileMappings)
free_mappings count i [] = if ltb i (count i) then none else some []
free_mappings count i (m ∷ mappings) =
    let rest = free_mappings count (suc i) mappings in
    if ltb i (count i) then rest else some (m ∷ mappings)

-- The `if` before that loop, which reads `num_file_count` first.
unfoldable pub free_if_any : (count : ℕ → ℕ) → List FileMappings → Option (List FileMappings)
free_if_any count mappings =
    if ltb 0 (count 0) then free_mappings (λ i. count (suc i)) 0 mappings else some mappings

module _ (p : Protobuf) where
  -- A message, written into a buffer of its packed size.
  unfoldable pub pack_message : (allocated : Bool) → MessageFromStorageToMaster → Option Bytes
  pack_message allocated m =
      if allocated && leb (length (p.pack m)) (p.get_packed_size m) then some (p.pack m) else none

  -- The bytes, and the mappings that are leaked. `allocated` says whether the calls of `malloc`
  -- succeed, `intact` whether all that the mappings point to is still allocated and in place while
  -- it is packed, and `count` is `num_file_count` as the later reads find it.
  unfoldable pub return_current_state_encoded_in_protobufs :
      (allocated intact : Bool)
      → StorageStateOuter
      → (count : ℕ → ℕ) → Option (Bytes × List FileMappings)
  return_current_state_encoded_in_protobufs allocated intact s count = do
    (mappings, _) ← snapshot s
    buf ← (if intact then pack_message allocated (health mappings) else none)
    leaked ← free_if_any count mappings
    some (buf, leaked)

  pub pack_message_lem :
      HasSizes p → (m : MessageFromStorageToMaster) → pack_message true m ≡ some (p.pack m)
  unfolding pack_message
  pack_message_lem sizes m = ground (arith, sizes m)

make_mapping :
    (f : FileStateCurrentInner)
    → HasChunks f
    → read_chunks f.num_chunks f.chunk_ids ≡ some (take f.num_chunks f.chunk_ids)
unfolding read_chunks
make_mapping f h = ground arith

make_mappings-map :
    (rounds i : ℕ) (files : List FileStateCurrentInner)
    → i + rounds ≤ length files
    → All HasChunks (take rounds (drop i files))
    → make_mappings rounds i files ≡ some (map mapping_of (take rounds (drop i files)))
unfolding make_mappings mapping_of
make_mappings-map zero i files h v = refl
make_mappings-map (suc rounds) i files h v =
    let (f, e) = get_elem?-total files i (omega arith) in
    let d = drop-get_elem? files i f e in
    let v' : HasChunks f × All HasChunks (take rounds (drop (suc i) files)) = rw d at v in
    rw (e, make_mapping f v'.0, make_mappings-map rounds (suc i) files (omega arith) v'.1, d) refl

-- Under the lock the mappings are the table, and the state is as before.
pub snapshot-catalogue : (s : StorageStateOuter) → IsValid s → snapshot s ≡ some (catalogue s, s)
unfolding snapshot catalogue
snapshot-catalogue s v =
    rw
      (
        mutex_lock_lem s v.unlocked,
        make_mappings-map s.num_file_count 0 s.file_to_chunk_state (omega (arith, v.allocated))
            v.chunks,
        mutex_unlock_lem (record s { lock = true }) refl,
      )
      (ap (λ b. some (catalogue s, record s { lock = b })) (sym v.unlocked))

free_mappings-drop :
    (n i : ℕ) (ms : List FileMappings)
    → free_mappings (λ _. n) i ms ≡ (if leb n (i + length ms) then some (drop (n - i) ms) else none)
unfolding free_mappings
free_mappings-drop n i [] = elim (Bool-cases (ltb i n)) [
  | inl more ↦ ground arith
  | inr done ↦ let e : n - i ≡ 0 = ground arith in rw e (ground arith)
]
free_mappings-drop n i (m ∷ ms) = elim (Bool-cases (ltb i n)) [
  | inl more ↦
      let e : n - i ≡ suc (n - suc i) = ground arith in
      rw (more, e, free_mappings-drop n (suc i) ms) (ground arith)
  | inr done ↦ let e : n - i ≡ 0 = ground arith in rw (done, e) (ground arith)
]

free_if_any-drop :
    (n : ℕ) (ms : List FileMappings)
    → free_if_any (λ _. n) ms ≡ (if leb n (length ms) then some (drop n ms) else none)
unfolding free_if_any
free_if_any-drop zero ms = ground arith
free_if_any-drop (suc n) ms =
    let any : ltb 0 (suc n) ≡ true = ground arith in
    let whole : 0 + length ms ≡ length ms = omega arith in
    let all : suc n - 0 ≡ suc n = omega arith in
    rw any (free_mappings-drop (suc n) 0 ms ∙ rw (whole, all) refl)

free_mappings-kept :
    (count : ℕ → ℕ) (i : ℕ) (ms : List FileMappings)
    → ((j : ℕ) → count j ≤ i + length ms)
    → (k : ℕ) × (free_mappings count i ms ≡ some (drop k ms))
unfolding free_mappings
free_mappings-kept count i [] h = (0, ground (arith, h i))
free_mappings-kept count i (m ∷ ms) h =
    let (k, e) = free_mappings-kept count (suc i) ms (λ j. omega (arith, h j)) in
    elim (Bool-cases (ltb i (count i))) [
      | inl more ↦ (suc k, rw more e)
      | inr done ↦ (0, rw done refl)
    ]

free_if_any-kept :
    (count : ℕ → ℕ) (ms : List FileMappings)
    → ((j : ℕ) → count j ≤ length ms)
    → (k : ℕ) × (free_if_any count ms ≡ some (drop k ms))
unfolding free_if_any
free_if_any-kept count ms h =
    let (k, e) = free_mappings-kept (λ i. count (suc i)) 0 ms (λ j. omega (arith, h (suc j))) in
    elim (Bool-cases (ltb 0 (count 0))) [ inl more ↦ (k, rw more e) | inr done ↦ (0, rw done refl) ]

module _ (p : Protobuf) (sizes : HasSizes p) (s : StorageStateOuter) (v : IsValid s) where
  -- Let the calls of `malloc` succeed. If the other thread has freed or moved nothing that the
  -- mappings point to, the message is the packed table as it was under the lock; else packing is a
  -- fault. If the other thread has changed the number of files by the time of the frees, and not
  -- again while they run, the mappings behind the new count are leaked, and with more files than
  -- before the loop frees pointers behind the array, a fault.
  pub encode-pack :
      (intact : Bool) (n : ℕ)
      → return_current_state_encoded_in_protobufs p true intact s (λ _. n) ≡ (
          if intact && leb n s.num_file_count
          then some (p.pack (health (catalogue s)), drop n (catalogue s))
          else none)
  unfolding return_current_state_encoded_in_protobufs
  encode-pack false n = rw (snapshot-catalogue s v) refl
  encode-pack true n =
      rw
        (
          snapshot-catalogue s v,
          pack_message_lem p sizes (health (catalogue s)),
          free_if_any-drop n (catalogue s),
          length-catalogue s v,
        )
        (ground arith)

  -- With no more files than before at any of its reads, the call does not fault in the frees.
  pub encode-kept :
      (count : ℕ → ℕ)
      → ((i : ℕ) → count i ≤ s.num_file_count)
      → (k : ℕ) × (return_current_state_encoded_in_protobufs p true true s count
          ≡ some (p.pack (health (catalogue s)), drop k (catalogue s)))
  unfolding return_current_state_encoded_in_protobufs
  encode-kept count h =
      let (k, e) = free_if_any-kept count (catalogue s) (λ j. rw (length-catalogue s v) (h j)) in
      (k, rw (snapshot-catalogue s v, pack_message_lem p sizes (health (catalogue s)), e) refl)
