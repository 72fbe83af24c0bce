-- ===== src/Proto/Join.antt =====
-- storageLayer/proto/data.pb-c.c: the functions and the descriptor of `Data__JoinMessageFromStorageToMaster`. A
-- failed assertion is none.
use distributed_file_system.Base.{ℕ, Option, none, some, List, [], ◌∷◌, take, Bytes, codes, ◌>>=◌}
use distributed_file_system.Proto.Structs.{
  AnyMessage, FieldDescriptor, IntRange, JoinStruct, MessageDescriptor, ProtobufC, any_join,
  assert_descriptor, join_descriptor, join_init,
}

-- `*message = init_value`
unfoldable pub init : JoinStruct → JoinStruct
unfolding join_init
init message = join_init

-- The cast of a pointer that the library returns. C does not check it; the library returns a message
-- of the descriptor's type, and for another type nothing is said of what the cast gives.
unfoldable pub cast : AnyMessage → Option JoinStruct
cast (any_join message) = some message
cast _ = none

module _ (c : ProtobufC) where
  unfoldable pub get_packed_size : JoinStruct → Option ℕ
  unfolding assert_descriptor
  get_packed_size message =
      assert_descriptor message.base join_descriptor (c.message_get_packed_size (any_join message))

  -- The bytes that go to `out`.
  unfoldable pub pack : JoinStruct → Option Bytes
  unfolding assert_descriptor
  pack message = assert_descriptor message.base join_descriptor (c.message_pack (any_join message))

  unfoldable pub pack_to_buffer : JoinStruct → (buffer : Bytes) → Option (ℕ × Bytes)
  unfolding assert_descriptor
  pack_to_buffer message buffer =
      assert_descriptor message.base join_descriptor
        (c.message_pack_to_buffer (any_join message) buffer)

  -- `none` is NULL.
  unfoldable pub unpack : (len : ℕ) → (buf : Bytes) → Option JoinStruct
  unfolding cast
  unpack len buf = do message ← c.message_unpack join_descriptor (take len buf); cast message

-- What is given to the library to be freed; nothing for NULL.
unfoldable pub free_unpacked : Option JoinStruct → Option (List AnyMessage)
unfolding assert_descriptor
free_unpacked none = some []
free_unpacked (some message) =
    assert_descriptor message.base join_descriptor (any_join message ∷ [])

unfoldable pub field_descriptors : List FieldDescriptor
field_descriptors = []

unfoldable pub field_indices_by_name : List ℕ
field_indices_by_name = []

unfoldable pub number_ranges : List IntRange
number_ranges = []

unfoldable pub descriptor : MessageDescriptor
unfolding field_descriptors field_indices_by_name number_ranges init
descriptor = record {
  name = codes "data.JoinMessageFromStorageToMaster";
  short_name = codes "JoinMessageFromStorageToMaster";
  c_name = codes "Data__JoinMessageFromStorageToMaster";
  package_name = codes "data";
  n_fields = 0;
  fields = field_descriptors;
  fields_sorted_by_name = field_indices_by_name;
  n_field_ranges = 0;
  field_ranges = number_ranges;
  message_init = any_join (init join_init);
}
