-- ===== src/Proto/FromStorage.antt =====
-- storageLayer/proto/data.pb-c.c: the functions and the descriptor of `Data__MessageFromStorageToMaster`. A
-- failed assertion is none.
use distributed_file_system.Base.{ℕ, Option, none, some, List, [], ◌∷◌, take, Bytes, codes, ◌>>=◌}
use distributed_file_system.Proto.Structs.{
  AnyMessage, FieldDescriptor, FromStorageStruct, IntRange, MessageDescriptor, ProtobufC,
  any_from_storage, assert_descriptor, flag_oneof, from_storage_descriptor, from_storage_init,
  health_descriptor, join_descriptor, label_none, type_message,
}

-- `*message = init_value`
unfoldable pub init : FromStorageStruct → FromStorageStruct
unfolding from_storage_init
init message = from_storage_init

-- The cast of a pointer that the library returns. C does not check it; the library returns a message
-- of the descriptor's type, and for another type nothing is said of what the cast gives.
unfoldable pub cast : AnyMessage → Option FromStorageStruct
cast (any_from_storage message) = some message
cast _ = none

module _ (c : ProtobufC) where
  unfoldable pub get_packed_size : FromStorageStruct → Option ℕ
  unfolding assert_descriptor
  get_packed_size message =
      assert_descriptor message.base from_storage_descriptor
        (c.message_get_packed_size (any_from_storage message))

  -- The bytes that go to `out`.
  unfoldable pub pack : FromStorageStruct → Option Bytes
  unfolding assert_descriptor
  pack message =
      assert_descriptor message.base from_storage_descriptor
        (c.message_pack (any_from_storage message))

  unfoldable pub pack_to_buffer : FromStorageStruct → (buffer : Bytes) → Option (ℕ × Bytes)
  unfolding assert_descriptor
  pack_to_buffer message buffer =
      assert_descriptor message.base from_storage_descriptor
        (c.message_pack_to_buffer (any_from_storage message) buffer)

  -- `none` is NULL.
  unfoldable pub unpack : (len : ℕ) → (buf : Bytes) → Option FromStorageStruct
  unfolding cast
  unpack len buf = do
    message ← c.message_unpack from_storage_descriptor (take len buf)
    cast message

-- What is given to the library to be freed; nothing for NULL.
unfoldable pub free_unpacked : Option FromStorageStruct → Option (List AnyMessage)
unfolding assert_descriptor
free_unpacked none = some []
free_unpacked (some message) =
    assert_descriptor message.base from_storage_descriptor (any_from_storage message ∷ [])

unfoldable pub field_descriptors : List FieldDescriptor
field_descriptors =
    record {
      name = codes "join";
      id = 1;
      label = label_none;
      type = type_message;
      quantifier_offset = some (codes "msg_type_case");
      offset = codes "join";
      descriptor = some join_descriptor;
      default_value = none;
      flags = flag_oneof;
    }
    ∷ record {
      name = codes "health";
      id = 2;
      label = label_none;
      type = type_message;
      quantifier_offset = some (codes "msg_type_case");
      offset = codes "health";
      descriptor = some health_descriptor;
      default_value = none;
      flags = flag_oneof;
    }
    ∷ []

unfoldable pub field_indices_by_name : List ℕ
field_indices_by_name = 1 ∷ 0 ∷ []

unfoldable pub number_ranges : List IntRange
number_ranges =
    record { start_value = 1; orig_index = 0 } ∷ record { start_value = 0; orig_index = 2 } ∷ []

unfoldable pub descriptor : MessageDescriptor
unfolding field_descriptors field_indices_by_name number_ranges init
descriptor = record {
  name = codes "data.MessageFromStorageToMaster";
  short_name = codes "MessageFromStorageToMaster";
  c_name = codes "Data__MessageFromStorageToMaster";
  package_name = codes "data";
  n_fields = 2;
  fields = field_descriptors;
  fields_sorted_by_name = field_indices_by_name;
  n_field_ranges = 1;
  field_ranges = number_ranges;
  message_init = any_from_storage (init from_storage_init);
}
