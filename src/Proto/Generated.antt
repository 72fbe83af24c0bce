-- ===== src/Proto/Generated.antt =====
-- The functions of storageLayer/proto/data.pb-c.c that the storage node calls, as it calls them in
-- storageLayer/state/fileState.c, storageLayer/tcpClient/client.c and
-- storageLayer/tcpClient/protoHandler/serialize.c: what the parameter `Protobuf` stands for.
use distributed_file_system.Base.{
  ◌≡◌, refl, true, Option, none, some, List, map, length, Bytes, leb, ◌>>=◌, if◌then◌else◌,
}
use distributed_file_system.Proto.{
  FileMappings, MessageFromStorageToMaster, not_set, join, health, MessageFromMasterToStorage,
  Protobuf, HasSizes,
}
use distributed_file_system.Proto.Structs.{
  FileMappingsStruct, HealthStruct, FromStorageStruct, msg_type_join, msg_type_health,
  health_pointer, join_pointer, join_init, file_mappings_init, health_init, from_storage_init,
  AnyMessage, any_from_storage, ProtobufC, same_descriptor, assert_descriptor,
}
use distributed_file_system.Proto.Mappings
use distributed_file_system.Proto.FromMaster
use distributed_file_system.Proto.FromStorage
use distributed_file_system.State.Encode.{pack_message}

-- A mapping of the health message, after `data__file_mappings__init`.
unfoldable pub mapping_struct : FileMappings → FileMappingsStruct
unfolding Mappings.init file_mappings_init
mapping_struct m = record (Mappings.init file_mappings_init) {
  filename = m.filename;
  n_chunk_ids = length m.chunk_ids;
  chunk_ids = m.chunk_ids;
}

-- `msg`
unfoldable pub health_struct : List FileMappings → HealthStruct
unfolding mapping_struct health_init
health_struct ms = record health_init {
  n_file_mappings = length ms;
  file_mappings = map mapping_struct ms;
}

-- `top_wrapper`
unfoldable pub top_wrapper : MessageFromStorageToMaster → FromStorageStruct
unfolding health_struct from_storage_init join_init
top_wrapper not_set = from_storage_init
top_wrapper join = record from_storage_init {
  msg_type_case = msg_type_join;
  msg_type = join_pointer join_init;
}
top_wrapper (health ms) = record from_storage_init {
  msg_type_case = msg_type_health;
  msg_type = health_pointer (health_struct ms);
}

module _ (c : ProtobufC) where
  -- The parameter, over the library, with the master's side as it is.
  abbrev pub generated :
      (decode : Bytes → Option MessageFromStorageToMaster)
      → (encode : MessageFromMasterToStorage → Bytes) → Protobuf
  generated decode encode = record {
    get_packed_size = λ m. c.message_get_packed_size (any_from_storage (top_wrapper m));
    pack = λ m. c.message_pack (any_from_storage (top_wrapper m));
    unpack = λ buf. (do m ← FromMaster.unpack c (length buf) buf; some (record { id = m.id }));
    decode = decode;
    encode = encode;
  }

  -- The documented size is the number of bytes that are packed.
  abbrev pub HasLibrarySizes : Type 0
  HasLibrarySizes = (m : AnyMessage) → c.message_get_packed_size m ≡ length (c.message_pack m)

  -- The calls of the code: the size, a buffer of it, and the bytes, which must fit.
  abbrev pub pack_calls : MessageFromStorageToMaster → Option Bytes
  pack_calls m = do
    len ← FromStorage.get_packed_size c (top_wrapper m)
    buf ← FromStorage.pack c (top_wrapper m)
    if leb (length buf) len then some buf else none

  pack_message-pack_calls :
      (decode : Bytes → Option MessageFromStorageToMaster)
      (encode : MessageFromMasterToStorage → Bytes) (m : MessageFromStorageToMaster)
      → pack_message (generated decode encode) true m ≡ pack_calls m
  unfolding pack_message FromStorage.get_packed_size FromStorage.pack top_wrapper from_storage_init
      assert_descriptor same_descriptor
  pack_message-pack_calls decode encode not_set = refl
  pack_message-pack_calls decode encode join = refl
  pack_message-pack_calls decode encode (health ms) = refl

  -- A message that is packed with the functions of the generated code, their assertions included, is
  -- packed as the parameter `Protobuf` of the other modules packs it, and where the library's sizes
  -- are right the size of the parameter is.
  pub generated-pack_message :
      (sizes : HasLibrarySizes) (decode : Bytes → Option MessageFromStorageToMaster)
      (encode : MessageFromMasterToStorage → Bytes)
      → ((m : MessageFromStorageToMaster)
          → pack_message (generated decode encode) true m ≡ pack_calls m)
        × HasSizes (generated decode encode)
  generated-pack_message sizes decode encode =
      (pack_message-pack_calls decode encode, λ m. sizes (any_from_storage (top_wrapper m)))
