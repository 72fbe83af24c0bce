-- ===== src/State/Insert/Steps.antt =====
-- The two writes of `insert_to_struct`, and what they do to the table.
use mathlib.Core.List.{map-append}
use distributed_file_system.Base.{
  ℕ, suc, ◌≤◌, ◌≡◌, refl, ap, sym, ◌∙◌, subst, Bool, true, false, ◌&&◌, some, [], ◌∷◌, ◌++◌, map,
  length, take, set, get_elem?, All, arith, Bytes, ◌>>=◌, All-append, All-append_left,
  All-append_right, length-append, length-take, length-set, take-all, take-suc, take-set_below,
  get_elem?-total, get_elem?-set_self,
}
use distributed_file_system.Base.Int.{ℤ}
use distributed_file_system.State.{
  FileStateCurrentInner, StorageStateOuter, mapping_of, catalogue, HasChunks,
}
use distributed_file_system.State.Insert.{
  Allocations, push_chunk_id, add_file, push_to_last, add_chunk, add_to_last, add_to_last-append,
}

mapping_of-push_chunk_id :
    (grown : Bool) (f : FileStateCurrentInner) (chunk_id : ℤ)
    → HasChunks f
    → mapping_of (push_chunk_id grown f chunk_id) ≡ add_chunk grown chunk_id (mapping_of f)
unfolding mapping_of push_chunk_id add_chunk
mapping_of-push_chunk_id false f chunk_id h = refl
mapping_of-push_chunk_id true f chunk_id h = rw (
    take-all (suc f.num_chunks) (take f.num_chunks f.chunk_ids ++ chunk_id ∷ []) (
      omega (
        arith,
        length-append (take f.num_chunks f.chunk_ids) (chunk_id ∷ []),
        length-take f.num_chunks f.chunk_ids,
      )))

push_chunk_id-HasChunks :
    (grown : Bool) (f : FileStateCurrentInner) (chunk_id : ℤ)
    → HasChunks f
    → HasChunks (push_chunk_id grown f chunk_id)
unfolding push_chunk_id
push_chunk_id-HasChunks false f chunk_id h = h
push_chunk_id-HasChunks true f chunk_id h = omega (
  arith,
  length-append (take f.num_chunks f.chunk_ids) (chunk_id ∷ []),
  length-take f.num_chunks f.chunk_ids,
)

-- The table of a state whose last visible entry is `f`.
catalogue-last :
    (s : StorageStateOuter) (i : ℕ) (f : FileStateCurrentInner)
    → s.num_file_count ≡ suc i
    → get_elem? s.file_to_chunk_state i ≡ some f
    → catalogue s ≡ map mapping_of (take i s.file_to_chunk_state) ++ mapping_of f ∷ []
unfolding catalogue
catalogue-last s i f n e =
    rw (n, take-suc i s.file_to_chunk_state f e)
      (map-append mapping_of (take i s.file_to_chunk_state) (f ∷ []))

-- What the inner steps keep while the lock is held.
pub record HasArrays (s : StorageStateOuter) : Type 0 where
  pub allocated : s.num_file_count ≤ length s.file_to_chunk_state
  pub chunks : All HasChunks (take s.num_file_count s.file_to_chunk_state)

pub push_to_last_lem :
    (grown : Bool) (chunk_id : ℤ) (i : ℕ) (s : StorageStateOuter)
    → s.num_file_count ≡ suc i
    → HasArrays s
    → (t : StorageStateOuter) × (push_to_last grown chunk_id s.num_file_count s ≡ some t)
      × HasArrays t
      × (catalogue t ≡ add_to_last grown chunk_id (catalogue s))
      × (t.lock ≡ s.lock)
unfolding push_to_last
push_to_last_lem grown chunk_id i s n h =
    let (f, e) = get_elem?-total s.file_to_chunk_state i (omega (arith, h.allocated)) in
    let f' = push_chunk_id grown f chunk_id in
    let visible = take-suc i s.file_to_chunk_state f e in
    let old : All HasChunks (take i s.file_to_chunk_state ++ f ∷ []) =
      subst (λ l. All HasChunks l) (ap (λ k. take k s.file_to_chunk_state) n ∙ visible) h.chunks in
    let has = All-append_right HasChunks (take i s.file_to_chunk_state) (f ∷ []) old in
    let files' = set s.file_to_chunk_state i f' in
    let e' : get_elem? files' i ≡ some f' =
      get_elem?-set_self s.file_to_chunk_state i f' (omega (arith, h.allocated)) in
    let visible' : take (suc i) files' ≡ take i s.file_to_chunk_state ++ f' ∷ [] =
      take-suc i files' f' e'
      ∙ ap (λ l. l ++ f' ∷ []) (take-set_below i i s.file_to_chunk_state f' (omega arith)) in
    let t : StorageStateOuter = record s { file_to_chunk_state = files' } in
    (
      t,
      ap (λ k. push_to_last grown chunk_id k s) n
          ∙ ap
              (λ o. o >>= (λ g. some (record s {
                file_to_chunk_state = set s.file_to_chunk_state i (push_chunk_id grown g chunk_id);
              })))
              e,
      record {
        allocated = rw (length-set s.file_to_chunk_state i f') h.allocated;
        chunks =
            rw (n, visible')
              (All-append HasChunks (take i s.file_to_chunk_state) (f' ∷ [])
                (All-append_left HasChunks (take i s.file_to_chunk_state) (f ∷ []) old)
                (push_chunk_id-HasChunks grown f chunk_id has.0, tt));
      },
      catalogue-last t i f' n e'
          ∙ ap (λ l. map mapping_of l ++ mapping_of f' ∷ [])
              (take-set_below i i s.file_to_chunk_state f' (omega arith))
          ∙ ap (λ m. map mapping_of (take i s.file_to_chunk_state) ++ m ∷ [])
              (mapping_of-push_chunk_id grown f chunk_id has.0)
          ∙ sym (
              add_to_last-append grown chunk_id (map mapping_of (take i s.file_to_chunk_state))
                (mapping_of f))
          ∙ ap (add_to_last grown chunk_id) (sym (catalogue-last s i f n e)),
      refl,
    )

pub add_file_lem :
    (a : Allocations) (file_path : Bytes) (s : StorageStateOuter)
    → (a.files && a.path) ≡ true
    → HasArrays s
    → (t : StorageStateOuter) × (add_file a file_path s ≡ some t)
      × HasArrays t
      × (catalogue t ≡ catalogue s ++ record { filename = file_path; chunk_ids = [] } ∷ [])
      × (t.num_file_count ≡ suc s.num_file_count)
      × (t.lock ≡ s.lock)
unfolding add_file catalogue
add_file_lem a file_path s ok h =
    let old = take s.num_file_count s.file_to_chunk_state in
    let f : FileStateCurrentInner = record {
      file_path = file_path;
      chunk_ids = [];
      num_chunks = 0;
    } in
    let n : length (old ++ f ∷ []) ≡ suc s.num_file_count = omega (
      arith,
      length-append old (f ∷ []),
      length-take s.num_file_count s.file_to_chunk_state,
      h.allocated,
    ) in
    let all = take-all (suc s.num_file_count) (old ++ f ∷ []) (omega (arith, n)) in
    (
      record s { file_to_chunk_state = old ++ f ∷ []; num_file_count = suc s.num_file_count },
      rw ok refl,
      record {
        allocated = omega (arith, n);
        chunks = rw all (All-append HasChunks old (f ∷ []) h.chunks (omega arith, tt));
      },
      rw all (
          map-append mapping_of old (f ∷ [])
          ∙ ap (λ m. map mapping_of old ++ m ∷ []) (unfold mapping_of in refl)),
      refl,
      refl,
    )
