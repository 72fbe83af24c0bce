-- ===== src/Tests/Generated.antt =====
-- The generated code, over a library that unpacks an id.
use distributed_file_system.Base.{◌≡◌, refl, ap, sym, ◌∙◌, Option, none, some, ◌++◌, Bytes, codes}
use distributed_file_system.Proto.Structs.{
  DescriptorName, from_master_descriptor, join_descriptor, file_mappings_descriptor,
  health_descriptor, from_storage_descriptor, AnyMessage, any_from_master, ProtobufC,
}
use distributed_file_system.Proto.FromMaster.{unpack, cast}
use distributed_file_system.Proto.Asserts.{
  base_of, own_descriptor, UnpacksOwn, calls, library_calls, IsMade, unpacked, IsMade-calls,
}

abbrev unpack_id : DescriptorName → Bytes → Option AnyMessage
unpack_id from_master_descriptor buf =
    some (any_from_master (record { base = from_master_descriptor; id = buf }))
unpack_id _ buf = none

abbrev library : ProtobufC
library = record {
  message_get_packed_size = λ m. 2;
  message_pack = λ m. codes "id";
  message_pack_to_buffer = λ m buffer. (2, buffer ++ codes "id");
  message_unpack = unpack_id;
}

library-UnpacksOwn : UnpacksOwn library
library-UnpacksOwn from_master_descriptor buf m e =
    let same : any_from_master (record { base = from_master_descriptor; id = buf }) ≡ m = cc in
    (sym (ap base_of same) ∙ refl, sym (ap own_descriptor same) ∙ refl)
library-UnpacksOwn join_descriptor buf m e = absurd cc
library-UnpacksOwn file_mappings_descriptor buf m e = absurd cc
library-UnpacksOwn health_descriptor buf m e = absurd cc
library-UnpacksOwn from_storage_descriptor buf m e = absurd cc

abbrev message : AnyMessage
message = any_from_master (record { base = from_master_descriptor; id = codes "id" })

message-IsMade : IsMade library message
unfolding unpack cast
message-IsMade = unpacked from_master_descriptor 2 (codes "idle") message refl

IsMade-calls_example : calls library (codes "b") message ≡ library_calls library (codes "b") message
IsMade-calls_example = IsMade-calls library library-UnpacksOwn (codes "b") message message-IsMade
