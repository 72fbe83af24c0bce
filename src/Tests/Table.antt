-- ===== src/Tests/Table.antt =====
-- The table of files and chunks, on concrete states.
use distributed_file_system.Base.{
  ◌≡◌, refl, ◌⊎◌, ◌&&◌, true, false, none, some, [], ◌∷◌, drop, arith, if◌then◌else◌, leb, str_eq,
}
use distributed_file_system.Base.Int.{pos}
use distributed_file_system.Proto.{health}
use distributed_file_system.State.{StorageStateOuter, IsValid, catalogue}
use distributed_file_system.State.Print.{print_storage_state, render, print_storage_state-render}
use distributed_file_system.State.Insert.{accepts, add_to_last, inserted, insert_to_struct}
use distributed_file_system.State.Insert.Laws.{insert_to_struct-inserted}
use distributed_file_system.State.Remove.{without_file, remove_from_struct}
use distributed_file_system.State.Remove.Laws.{remove_from_struct-without_file}
use distributed_file_system.State.Encode.{return_current_state_encoded_in_protobufs, encode-pack}
use distributed_file_system.Disk.Memory.{memory}
use distributed_file_system.FileOperation.{full_path}
use distributed_file_system.GetFileDescriptor.{
  get_file_descriptor, has_chunk, get_file_descriptor-has_chunk,
}
use distributed_file_system.GetFileDescriptor.Search.{HasDistinctNames}
use distributed_file_system.Tests.Format.{format, format-HasSizes}
use distributed_file_system.Tests.{name_a, name_b, allocations, table_ab, table_ab-IsValid, node_ab}

insert_to_struct-inserted_example :
    ((accepts allocations true (catalogue table_ab) ≡ false)
      × (insert_to_struct allocations name_a (pos 7) true table_ab ≡ none))
    ⊎ ((t : StorageStateOuter) × (accepts allocations true (catalogue table_ab) ≡ true)
        × (insert_to_struct allocations name_a (pos 7) true table_ab ≡ some t)
        × IsValid t
        × (catalogue t ≡ inserted allocations name_a (pos 7) true (catalogue table_ab)))
insert_to_struct-inserted_example =
    insert_to_struct-inserted allocations name_a (pos 7) true table_ab table_ab-IsValid

remove_from_struct-without_file_example :
    (t : StorageStateOuter) × (remove_from_struct true name_a table_ab ≡ some t)
    × IsValid t
    × (catalogue t ≡ without_file name_a (catalogue table_ab))
remove_from_struct-without_file_example =
    remove_from_struct-without_file true name_a table_ab table_ab-IsValid

print_storage_state-render_example :
    print_storage_state table_ab ≡ some (render (catalogue table_ab), table_ab)
print_storage_state-render_example = print_storage_state-render table_ab table_ab-IsValid

get_file_descriptor-has_chunk_example :
    get_file_descriptor memory name_b (pos 1) node_ab
    ≡ some (
      if has_chunk name_b (pos 1) (catalogue table_ab)
          then memory.open_rdonly (full_path name_b (pos 1)) node_ab.disk
          else none,
      table_ab,
    )
get_file_descriptor-has_chunk_example =
    get_file_descriptor-has_chunk memory name_b (pos 1) node_ab table_ab-IsValid

pub distinct_ab : HasDistinctNames (catalogue table_ab)
unfolding catalogue
distinct_ab = ((λ e. ground arith, tt), (tt, tt))

-- The other thread removes a file when the message has been packed: a mapping is leaked.
encode-pack_example :
    return_current_state_encoded_in_protobufs format true true table_ab (λ i. 1) ≡ (
      if true && leb 1 table_ab.num_file_count
      then some (format.pack (health (catalogue table_ab)), drop 1 (catalogue table_ab))
      else none)
encode-pack_example = encode-pack format format-HasSizes table_ab table_ab-IsValid true 1

-- The id goes to the last entry, whatever the name.
insert_misplaced :
    inserted allocations name_a (pos 7) true (catalogue table_ab)
    ≡ record { filename = name_a; chunk_ids = pos 0 ∷ [] }
      ∷ record { filename = name_b; chunk_ids = pos 1 ∷ pos 7 ∷ [] }
      ∷ []
unfolding inserted catalogue add_to_last
insert_misplaced = refl

removed_first :
    without_file name_a (catalogue table_ab)
    ≡ record { filename = name_b; chunk_ids = pos 1 ∷ [] } ∷ []
unfolding without_file catalogue str_eq
removed_first = refl
