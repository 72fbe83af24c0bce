-- ===== src/Tests/Format.antt =====
-- A message format for the tests, in place of protobuf-c: every list behind its length.
use distributed_file_system.Base.{
  ℕ, zero, suc, ◌≡◌, refl, Option, none, some, List, [], ◌∷◌, ◌++◌, length, Bytes, ◌>>=◌,
}
use distributed_file_system.Base.Int.{ℤ, pos, negsuc}
use distributed_file_system.Proto.{
  FileMappings, MessageFromStorageToMaster, not_set, join, health, Protobuf, HasSizes, IsReadable,
  IsHeard,
}

abbrev pack_ids : List ℤ → Bytes
pack_ids [] = []
pack_ids (pos n ∷ ids) = 0 ∷ n ∷ pack_ids ids
pack_ids (negsuc n ∷ ids) = 1 ∷ n ∷ pack_ids ids

abbrev pack_mappings : List FileMappings → Bytes
pack_mappings [] = []
pack_mappings (m ∷ ms) =
    length m.filename
    ∷ (m.filename ++ (length m.chunk_ids ∷ (pack_ids m.chunk_ids ++ pack_mappings ms)))

abbrev pack : MessageFromStorageToMaster → Bytes
pack not_set = []
pack join = 0 ∷ []
pack (health ms) = 1 ∷ length ms ∷ pack_mappings ms

abbrev take_ids : ℕ → Bytes → Option (List ℤ × Bytes)
take_ids zero s = some ([], s)
take_ids (suc n) (zero ∷ k ∷ s) = do (ids, t) ← take_ids n s; some (pos k ∷ ids, t)
take_ids (suc n) (suc _ ∷ k ∷ s) = do (ids, t) ← take_ids n s; some (negsuc k ∷ ids, t)
take_ids (suc n) _ = none

abbrev take_name : ℕ → Bytes → Option (Bytes × Bytes)
take_name zero s = some ([], s)
take_name (suc n) [] = none
take_name (suc n) (c ∷ s) = do (name, t) ← take_name n s; some (c ∷ name, t)

abbrev take_count : Bytes → Option (ℕ × Bytes)
take_count [] = none
take_count (n ∷ s) = some (n, s)

abbrev take_mappings : ℕ → Bytes → Option (List FileMappings)
take_mappings zero s = some []
take_mappings (suc n) s = do
  (k, s) ← take_count s
  (name, s) ← take_name k s
  (k, s) ← take_count s
  (ids, s) ← take_ids k s
  ms ← take_mappings n s
  some (record { filename = name; chunk_ids = ids } ∷ ms)

abbrev decode : Bytes → Option MessageFromStorageToMaster
decode [] = some not_set
decode (zero ∷ s) = some join
decode (suc _ ∷ n ∷ s) = do ms ← take_mappings n s; some (health ms)
decode (suc _ ∷ []) = none

abbrev pub format : Protobuf
format = record {
  get_packed_size = λ m. length (pack m);
  pack = pack;
  unpack = λ buf. some (record { id = buf });
  decode = decode;
  encode = λ m. m.id;
}

pub format-HasSizes : HasSizes format
format-HasSizes m = refl

take_ids-pack_ids :
    (ids : List ℤ) (s : Bytes) → take_ids (length ids) (pack_ids ids ++ s) ≡ some (ids, s)
take_ids-pack_ids [] s = refl
take_ids-pack_ids (pos n ∷ ids) s = rw (take_ids-pack_ids ids s) refl
take_ids-pack_ids (negsuc n ∷ ids) s = rw (take_ids-pack_ids ids s) refl

take_name-append : (name s : Bytes) → take_name (length name) (name ++ s) ≡ some (name, s)
take_name-append [] s = refl
take_name-append (c ∷ name) s = rw (take_name-append name s) refl

take_mappings-pack_mappings :
    (ms : List FileMappings) → take_mappings (length ms) (pack_mappings ms) ≡ some ms
take_mappings-pack_mappings [] = refl
take_mappings-pack_mappings (m ∷ ms) =
    rw
      (
        take_name-append m.filename
            (length m.chunk_ids ∷ (pack_ids m.chunk_ids ++ pack_mappings ms)),
        take_ids-pack_ids m.chunk_ids (pack_mappings ms),
        take_mappings-pack_mappings ms,
      )
      refl

pub format-IsReadable : IsReadable format
format-IsReadable not_set t = refl
format-IsReadable join t = refl
format-IsReadable (health ms) t = rw (take_mappings-pack_mappings ms) refl

pub format-IsHeard : IsHeard format
format-IsHeard m = refl
