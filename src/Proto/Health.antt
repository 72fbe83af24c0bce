-- ===== src/Proto/Health.antt =====
-- storageLayer/proto/data.pb-c.c: the functions and the descriptor of `Data__HealthMessageFromStorageToMaster`. A
-- failed assertion is none.
use distributed_file_system.Base.{ℕ, Option, none, some, List, [], ◌∷◌, take, Bytes, codes, ◌>>=◌}
use distributed_file_system.Proto.Structs.{
  AnyMessage, FieldDescriptor, HealthStruct, IntRange, MessageDescriptor, ProtobufC, any_health,
  assert_descriptor, file_mappings_descriptor, health_descriptor, health_init, label_repeated,
  no_flag, type_message,
}

-- `*message = init_value`
unfoldable pub init : HealthStruct → HealthStruct
unfolding health_init
init message = health_init

-- The cast of a pointer that the library returns. C does not check it; the library returns a message
-- of the descriptor's type, and for another type nothing is said of what the cast gives.
unfoldable pub cast : AnyMessage → Option HealthStruct
cast (any_health message) = some message
cast _ = none

module _ (c : ProtobufC) where
  unfoldable pub get_packed_size : HealthStruct → Option ℕ
  unfolding assert_descriptor
  get_packed_size message =
      assert_descriptor message.base health_descriptor
        (c.message_get_packed_size (any_health message))

  -- The bytes that go to `out`.
  unfoldable pub pack : HealthStruct → Option Bytes
  unfolding assert_descriptor
  pack message =
      assert_descriptor message.base health_descriptor (c.message_pack (any_health message))

  unfoldable pub pack_to_buffer : HealthStruct → (buffer : Bytes) → Option (ℕ × Bytes)
  unfolding assert_descriptor
  pack_to_buffer message buffer =
      assert_descriptor message.base health_descriptor
        (c.message_pack_to_buffer (any_health message) buffer)

  -- `none` is NULL.
  unfoldable pub unpack : (len : ℕ) → (buf : Bytes) → Option HealthStruct
  unfolding cast
  unpack len buf = do message ← c.message_unpack health_descriptor (take len buf); cast message

-- What is given to the library to be freed; nothing for NULL.
unfoldable pub free_unpacked : Option HealthStruct → Option (List AnyMessage)
unfolding assert_descriptor
free_unpacked none = some []
free_unpacked (some message) =
    assert_descriptor message.base health_descriptor (any_health message ∷ [])

unfoldable pub field_descriptors : List FieldDescriptor
field_descriptors =
    record {
      name = codes "file_mappings";
      id = 1;
      label = label_repeated;
      type = type_message;
      quantifier_offset = some (codes "n_file_mappings");
      offset = codes "file_mappings";
      descriptor = some file_mappings_descriptor;
      default_value = none;
      flags = no_flag;
    }
    ∷ []

unfoldable pub field_indices_by_name : List ℕ
field_indices_by_name = 0 ∷ []

unfoldable pub number_ranges : List IntRange
number_ranges =
    record { start_value = 1; orig_index = 0 } ∷ record { start_value = 0; orig_index = 1 } ∷ []

unfoldable pub descriptor : MessageDescriptor
unfolding field_descriptors field_indices_by_name number_ranges init
descriptor = record {
  name = codes "data.HealthMessageFromStorageToMaster";
  short_name = codes "HealthMessageFromStorageToMaster";
  c_name = codes "Data__HealthMessageFromStorageToMaster";
  package_name = codes "data";
  n_fields = 1;
  fields = field_descriptors;
  fields_sorted_by_name = field_indices_by_name;
  n_field_ranges = 1;
  field_ranges = number_ranges;
  message_init = any_health (init health_init);
}
