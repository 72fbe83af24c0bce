-- ===== src/Proto/Structs.antt =====
-- The structs of storageLayer/proto/data.pb-c.h and their initialisers, and what the generated code
-- uses of the library protobuf-c: the types of its descriptors, and its functions as a parameter. The
-- allocator is left out: the program passes NULL for it. Of the `base` of a struct only the
-- descriptor is kept, since nothing else reads the rest.
use distributed_file_system.Base.{
  ℕ, Bool, true, false, Option, none, some, List, [], Bytes, if◌then◌else◌,
}
use distributed_file_system.Base.Int.{ℤ}

-- The descriptors, which a struct points to.
pub data DescriptorName : Type 0 where
  join_descriptor file_mappings_descriptor health_descriptor from_master_descriptor
        from_storage_descriptor :
      DescriptorName

pub record JoinStruct : Type 0 where
  pub base : DescriptorName

pub record FileMappingsStruct : Type 0 where
  pub base : DescriptorName
  pub filename : Bytes
  pub n_chunk_ids : ℕ
  pub chunk_ids : List ℤ

pub record HealthStruct : Type 0 where
  pub base : DescriptorName
  pub n_file_mappings : ℕ
  pub file_mappings : List FileMappingsStruct

pub record FromMasterStruct : Type 0 where
  pub base : DescriptorName
  pub id : Bytes

-- `msg_type_case`
pub data MsgTypeCase : Type 0 where
  msg_type_not_set msg_type_join msg_type_health : MsgTypeCase

-- The union: a pointer, as what it was last assigned.
pub data MsgTypeUnion : Type 0 where
  null_pointer : MsgTypeUnion
  health_pointer : HealthStruct → MsgTypeUnion
  join_pointer : JoinStruct → MsgTypeUnion

pub record FromStorageStruct : Type 0 where
  pub base : DescriptorName
  pub msg_type_case : MsgTypeCase
  pub msg_type : MsgTypeUnion

-- The initialisers. The empty string is `protobuf_c_empty_string`, the empty lists are NULL.
unfoldable pub join_init : JoinStruct
join_init = record { base = join_descriptor }

unfoldable pub file_mappings_init : FileMappingsStruct
file_mappings_init = record {
  base = file_mappings_descriptor;
  filename = [];
  n_chunk_ids = 0;
  chunk_ids = [];
}

unfoldable pub health_init : HealthStruct
health_init = record { base = health_descriptor; n_file_mappings = 0; file_mappings = [] }

unfoldable pub from_master_init : FromMasterStruct
from_master_init = record { base = from_master_descriptor; id = [] }

unfoldable pub from_storage_init : FromStorageStruct
from_storage_init = record {
  base = from_storage_descriptor;
  msg_type_case = msg_type_not_set;
  msg_type = null_pointer;
}

-- What a `ProtobufCMessage *` points to.
pub data AnyMessage : Type 0 where
  any_join : JoinStruct → AnyMessage
  any_file_mappings : FileMappingsStruct → AnyMessage
  any_health : HealthStruct → AnyMessage
  any_from_master : FromMasterStruct → AnyMessage
  any_from_storage : FromStorageStruct → AnyMessage

-- The functions of the library. `message_pack_to_buffer` returns the size and what the buffer holds
-- after it.
pub record ProtobufC : Type 0 where
  pub message_get_packed_size : AnyMessage → ℕ
  pub message_pack : AnyMessage → Bytes
  pub message_pack_to_buffer : AnyMessage → Bytes → ℕ × Bytes
  pub message_unpack : DescriptorName → Bytes → Option AnyMessage

-- The equality of two addresses of descriptors.
unfoldable pub same_descriptor : DescriptorName → DescriptorName → Bool
same_descriptor join_descriptor join_descriptor = true
same_descriptor file_mappings_descriptor file_mappings_descriptor = true
same_descriptor health_descriptor health_descriptor = true
same_descriptor from_master_descriptor from_master_descriptor = true
same_descriptor from_storage_descriptor from_storage_descriptor = true
same_descriptor _ _ = false

-- `assert(message->base.descriptor == &descriptor)`: where it fails the process aborts.
unfoldable pub assert_descriptor {ℓ} : {A : Type ℓ} → DescriptorName → DescriptorName → A → Option A
unfolding same_descriptor
assert_descriptor base descriptor result =
    if same_descriptor base descriptor then some result else none

-- The labels, types and flags of the library that the descriptors name.
pub data Label : Type 0 where
  label_none label_repeated : Label

pub data FieldType : Type 0 where
  type_string type_int32 type_message : FieldType

pub data FieldFlag : Type 0 where
  no_flag flag_packed flag_oneof : FieldFlag

-- A field: `offsetof` is the name of the member, and 0 is none.
pub record FieldDescriptor : Type 0 where
  pub name : Bytes
  pub id : ℕ
  pub label : Label
  pub type : FieldType
  pub quantifier_offset : Option Bytes
  pub offset : Bytes
  pub descriptor : Option DescriptorName
  pub default_value : Option Bytes
  pub flags : FieldFlag

pub record IntRange : Type 0 where
  pub start_value : ℕ
  pub orig_index : ℕ

-- `sizeof` is the struct, and `message_init` what the function leaves in one.
pub record MessageDescriptor : Type 0 where
  pub name : Bytes
  pub short_name : Bytes
  pub c_name : Bytes
  pub package_name : Bytes
  pub n_fields : ℕ
  pub fields : List FieldDescriptor
  pub fields_sorted_by_name : List ℕ
  pub n_field_ranges : ℕ
  pub field_ranges : List IntRange
  pub message_init : AnyMessage
