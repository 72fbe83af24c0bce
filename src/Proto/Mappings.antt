-- ===== src/Proto/Mappings.antt =====
-- storageLayer/proto/data.pb-c.c: the functions and the descriptor of `Data__FileMappings`. A
-- failed assertion is none.
use distributed_file_system.Base.{ℕ, Option, none, some, List, [], ◌∷◌, take, Bytes, codes, ◌>>=◌}
use distributed_file_system.Proto.Structs.{
  AnyMessage, FieldDescriptor, FileMappingsStruct, IntRange, MessageDescriptor, ProtobufC,
  any_file_mappings, assert_descriptor, file_mappings_descriptor, file_mappings_init, flag_packed,
  label_none, label_repeated, no_flag, type_int32, type_string,
}

-- `*message = init_value`
unfoldable pub init : FileMappingsStruct → FileMappingsStruct
unfolding file_mappings_init
init message = file_mappings_init

-- The cast of a pointer that the library returns. C does not check it; the library returns a message
-- of the descriptor's type, and for another type nothing is said of what the cast gives.
unfoldable pub cast : AnyMessage → Option FileMappingsStruct
cast (any_file_mappings message) = some message
cast _ = none

module _ (c : ProtobufC) where
  unfoldable pub get_packed_size : FileMappingsStruct → Option ℕ
  unfolding assert_descriptor
  get_packed_size message =
      assert_descriptor message.base file_mappings_descriptor
        (c.message_get_packed_size (any_file_mappings message))

  -- The bytes that go to `out`.
  unfoldable pub pack : FileMappingsStruct → Option Bytes
  unfolding assert_descriptor
  pack message =
      assert_descriptor message.base file_mappings_descriptor
        (c.message_pack (any_file_mappings message))

  unfoldable pub pack_to_buffer : FileMappingsStruct → (buffer : Bytes) → Option (ℕ × Bytes)
  unfolding assert_descriptor
  pack_to_buffer message buffer =
      assert_descriptor message.base file_mappings_descriptor
        (c.message_pack_to_buffer (any_file_mappings message) buffer)

  -- `none` is NULL.
  unfoldable pub unpack : (len : ℕ) → (buf : Bytes) → Option FileMappingsStruct
  unfolding cast
  unpack len buf = do
    message ← c.message_unpack file_mappings_descriptor (take len buf)
    cast message

-- What is given to the library to be freed; nothing for NULL.
unfoldable pub free_unpacked : Option FileMappingsStruct → Option (List AnyMessage)
unfolding assert_descriptor
free_unpacked none = some []
free_unpacked (some message) =
    assert_descriptor message.base file_mappings_descriptor (any_file_mappings message ∷ [])

unfoldable pub field_descriptors : List FieldDescriptor
field_descriptors =
    record {
      name = codes "filename";
      id = 1;
      label = label_none;
      type = type_string;
      quantifier_offset = none;
      offset = codes "filename";
      descriptor = none;
      default_value = some [];
      flags = no_flag;
    }
    ∷ record {
      name = codes "chunk_ids";
      id = 2;
      label = label_repeated;
      type = type_int32;
      quantifier_offset = some (codes "n_chunk_ids");
      offset = codes "chunk_ids";
      descriptor = none;
      default_value = none;
      flags = flag_packed;
    }
    ∷ []

unfoldable pub field_indices_by_name : List ℕ
field_indices_by_name = 1 ∷ 0 ∷ []

unfoldable pub number_ranges : List IntRange
number_ranges =
    record { start_value = 1; orig_index = 0 } ∷ record { start_value = 0; orig_index = 2 } ∷ []

unfoldable pub descriptor : MessageDescriptor
unfolding field_descriptors field_indices_by_name number_ranges init
descriptor = record {
  name = codes "data.FileMappings";
  short_name = codes "FileMappings";
  c_name = codes "Data__FileMappings";
  package_name = codes "data";
  n_fields = 2;
  fields = field_descriptors;
  fields_sorted_by_name = field_indices_by_name;
  n_field_ranges = 1;
  field_ranges = number_ranges;
  message_init = any_file_mappings (init file_mappings_init);
}
