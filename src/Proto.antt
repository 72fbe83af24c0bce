-- ===== src/Proto.antt =====
-- storageLayer/data.proto and the structs of storageLayer/proto/data.pb-c.h: the messages between
-- a storage node and the master, as the program thinks of them. Packing and unpacking are the work
-- of the library protobuf-c, through the functions of the generated storageLayer/proto/data.pb-c.c,
-- and a parameter here; Structs and the modules behind it are those functions over the library.
pub mod Structs
pub mod Join
pub mod Mappings
pub mod Health
pub mod FromMaster
pub mod FromStorage
pub mod Casts
pub mod Asserts
pub mod Generated
use distributed_file_system.Base.{
  ℕ, ◌≡◌, Bool, true, false, Option, none, some, List, [], ◌∷◌, Bytes, length, All, ltb, leb, ◌&&◌,
  ◌==◌, if◌then◌else◌,
}
use distributed_file_system.Base.Int.{ℤ, IsInt32}

pub record FileMappings : Type 0 where
  pub filename : Bytes
  pub chunk_ids : List ℤ

-- The oneof `msg_type`.
pub data MessageFromStorageToMaster : Type 0 where
  not_set : MessageFromStorageToMaster
  join : MessageFromStorageToMaster
  health : (file_mappings : List FileMappings) → MessageFromStorageToMaster

pub record MessageFromMasterToStorage : Type 0 where
  pub id : Bytes

-- What the storage node calls of protobuf-c, and the master's encoder and decoder of the same
-- messages, those of prost.
pub record Protobuf : Type 0 where
  pub get_packed_size : MessageFromStorageToMaster → ℕ
  pub pack : MessageFromStorageToMaster → Bytes
  pub unpack : Bytes → Option MessageFromMasterToStorage
  pub decode : Bytes → Option MessageFromStorageToMaster
  pub encode : MessageFromMasterToStorage → Bytes

-- The documented size is the number of bytes that `pack` writes.
abbrev pub HasSizes : Protobuf → Type 0
HasSizes p = (m : MessageFromStorageToMaster) → p.get_packed_size m ≡ length (p.pack m)

-- What may follow a byte in UTF-8, as ranges of bytes. A C string has no NUL.
unfoldable pub continuation : ℕ → Option (List (ℕ × ℕ))
continuation c =
    if c == 0
    then none
    else if ltb c 128
    then some []
    else if ltb c 194
    then none
    else if ltb c 224
    then some ((128, 191) ∷ [])
    else if c == 224
    then some ((160, 191) ∷ (128, 191) ∷ [])
    else if c == 237
    then some ((128, 159) ∷ (128, 191) ∷ [])
    else if ltb c 240
    then some ((128, 191) ∷ (128, 191) ∷ [])
    else if c == 240
    then some ((144, 191) ∷ (128, 191) ∷ (128, 191) ∷ [])
    else if ltb c 244
    then some ((128, 191) ∷ (128, 191) ∷ (128, 191) ∷ [])
    else if c == 244
    then some ((128, 143) ∷ (128, 191) ∷ (128, 191) ∷ [])
    else none

-- Whether the bytes are valid UTF-8 behind a character of which the ranges are still to come.
unfoldable pub is_utf8_from : List (ℕ × ℕ) → Bytes → Bool
is_utf8_from [] [] = true
is_utf8_from (range ∷ ranges) [] = false
is_utf8_from [] (c ∷ s) = elim (continuation c) [
  | none ↦ false
  | some ranges ↦ is_utf8_from ranges s
]
is_utf8_from (range ∷ ranges) (c ∷ s) = leb range.0 c && leb c range.1 && is_utf8_from ranges s

-- A message that the two ends can exchange: `string` fields are UTF-8, which protobuf-c does not
-- check, and the ids are of `int32`.
abbrev pub IsText : MessageFromStorageToMaster → Type 0
IsText not_set = Unit {0}
IsText join = Unit {0}
IsText (health ms) = All (λ m. (is_utf8_from [] m.filename ≡ true) × All IsInt32 m.chunk_ids) ms

-- The two ends agree on the format.
abbrev pub IsReadable : Protobuf → Type 0
IsReadable p = (m : MessageFromStorageToMaster) → IsText m → p.decode (p.pack m) ≡ some m

abbrev pub IsHeard : Protobuf → Type 0
IsHeard p = (m : MessageFromMasterToStorage) → p.unpack (p.encode m) ≡ some m
