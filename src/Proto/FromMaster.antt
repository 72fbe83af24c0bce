-- ===== src/Proto/FromMaster.antt =====
-- storageLayer/proto/data.pb-c.c: the functions and the descriptor of `Data__MessageFromMasterToStorage`. A
-- failed assertion is none.
use distributed_file_system.Base.{ℕ, Option, none, some, List, [], ◌∷◌, take, Bytes, codes, ◌>>=◌}
use distributed_file_system.Proto.Structs.{
  AnyMessage, FieldDescriptor, FromMasterStruct, IntRange, MessageDescriptor, ProtobufC,
  any_from_master, assert_descriptor, from_master_descriptor, from_master_init, label_none, no_flag,
  type_string,
}

-- `*message = init_value`
unfoldable pub init : FromMasterStruct → FromMasterStruct
unfolding from_master_init
init message = from_master_init

-- The cast of a pointer that the library returns. C does not check it; the library returns a message
-- of the descriptor's type, and for another type nothing is said of what the cast gives.
unfoldable pub cast : AnyMessage → Option FromMasterStruct
cast (any_from_master message) = some message
cast _ = none

module _ (c : ProtobufC) where
  unfoldable pub get_packed_size : FromMasterStruct → Option ℕ
  unfolding assert_descriptor
  get_packed_size message =
      assert_descriptor message.base from_master_descriptor
        (c.message_get_packed_size (any_from_master message))

  -- The bytes that go to `out`.
  unfoldable pub pack : FromMasterStruct → Option Bytes
  unfolding assert_descriptor
  pack message =
      assert_descriptor message.base from_master_descriptor
        (c.message_pack (any_from_master message))

  unfoldable pub pack_to_buffer : FromMasterStruct → (buffer : Bytes) → Option (ℕ × Bytes)
  unfolding assert_descriptor
  pack_to_buffer message buffer =
      assert_descriptor message.base from_master_descriptor
        (c.message_pack_to_buffer (any_from_master message) buffer)

  -- `none` is NULL.
  unfoldable pub unpack : (len : ℕ) → (buf : Bytes) → Option FromMasterStruct
  unfolding cast
  unpack len buf = do message ← c.message_unpack from_master_descriptor (take len buf); cast message

-- What is given to the library to be freed; nothing for NULL.
unfoldable pub free_unpacked : Option FromMasterStruct → Option (List AnyMessage)
unfolding assert_descriptor
free_unpacked none = some []
free_unpacked (some message) =
    assert_descriptor message.base from_master_descriptor (any_from_master message ∷ [])

unfoldable pub field_descriptors : List FieldDescriptor
field_descriptors =
    record {
      name = codes "id";
      id = 1;
      label = label_none;
      type = type_string;
      quantifier_offset = none;
      offset = codes "id";
      descriptor = none;
      default_value = some [];
      flags = no_flag;
    }
    ∷ []

unfoldable pub field_indices_by_name : List ℕ
field_indices_by_name = 0 ∷ []

unfoldable pub number_ranges : List IntRange
number_ranges =
    record { start_value = 1; orig_index = 0 } ∷ record { start_value = 0; orig_index = 1 } ∷ []

unfoldable pub descriptor : MessageDescriptor
unfolding field_descriptors field_indices_by_name number_ranges init
descriptor = record {
  name = codes "data.MessageFromMasterToStorage";
  short_name = codes "MessageFromMasterToStorage";
  c_name = codes "Data__MessageFromMasterToStorage";
  package_name = codes "data";
  n_fields = 1;
  fields = field_descriptors;
  fields_sorted_by_name = field_indices_by_name;
  n_field_ranges = 1;
  field_ranges = number_ranges;
  message_init = any_from_master (init from_master_init);
}
