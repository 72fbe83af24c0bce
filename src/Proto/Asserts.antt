-- ===== src/Proto/Asserts.antt =====
-- The assertions of storageLayer/proto/data.pb-c.c, and the functions that the storage node calls
-- against the parameter of the other modules.
use distributed_file_system.Base.{
  ℕ, ◌≡◌, refl, ◌∙◌, sym, true, Option, Option-cases, none, some, inl, inr, List, [], ◌∷◌, take,
  Bytes, ◌>>=◌,
}
use distributed_file_system.Proto.Structs.{
  DescriptorName, join_descriptor, file_mappings_descriptor, health_descriptor,
  from_master_descriptor, from_storage_descriptor, join_init, file_mappings_init, health_init,
  from_master_init, from_storage_init, AnyMessage, any_join, any_file_mappings, any_health,
  any_from_master, any_from_storage, ProtobufC, same_descriptor, assert_descriptor,
}
use distributed_file_system.Proto.Join
use distributed_file_system.Proto.Mappings
use distributed_file_system.Proto.Health
use distributed_file_system.Proto.FromMaster
use distributed_file_system.Proto.FromStorage
use distributed_file_system.Proto.Casts.{
  join-cast, file_mappings-cast, health-cast, from_master-cast, from_storage-cast,
}

abbrev pub base_of : AnyMessage → DescriptorName
base_of (any_join m) = m.base
base_of (any_file_mappings m) = m.base
base_of (any_health m) = m.base
base_of (any_from_master m) = m.base
base_of (any_from_storage m) = m.base

-- The functions of a type of message, on any message that is cast to it.
abbrev pub own_descriptor : AnyMessage → DescriptorName
own_descriptor (any_join m) = join_descriptor
own_descriptor (any_file_mappings m) = file_mappings_descriptor
own_descriptor (any_health m) = health_descriptor
own_descriptor (any_from_master m) = from_master_descriptor
own_descriptor (any_from_storage m) = from_storage_descriptor

-- `unpack` makes messages of the descriptor that it is given.
abbrev pub UnpacksOwn : ProtobufC → Type 0
UnpacksOwn c =
    (d : DescriptorName) (buf : Bytes) (m : AnyMessage)
    → c.message_unpack d buf ≡ some m
    → (base_of m ≡ d) × (own_descriptor m ≡ d)

same_descriptor_refl : (d : DescriptorName) → same_descriptor d d ≡ true
unfolding same_descriptor
same_descriptor_refl join_descriptor = refl
same_descriptor_refl file_mappings_descriptor = refl
same_descriptor_refl health_descriptor = refl
same_descriptor_refl from_master_descriptor = refl
same_descriptor_refl from_storage_descriptor = refl

assert_descriptor-own {ℓ} :
    {A : Type ℓ} (base d : DescriptorName) (result : A)
    → base ≡ d
    → assert_descriptor base d result ≡ some result
unfolding assert_descriptor
assert_descriptor-own base d result e = rw (e, same_descriptor_refl d) refl

-- What `init` makes of a message of each type.
abbrev pub init_any : DescriptorName → AnyMessage
init_any join_descriptor = any_join (Join.init join_init)
init_any file_mappings_descriptor = any_file_mappings (Mappings.init file_mappings_init)
init_any health_descriptor = any_health (Health.init health_init)
init_any from_master_descriptor = any_from_master (FromMaster.init from_master_init)
init_any from_storage_descriptor = any_from_storage (FromStorage.init from_storage_init)

module _ (c : ProtobufC) where
  -- `unpack` of each type.
  abbrev pub unpack_any : DescriptorName → ℕ → Bytes → Option AnyMessage
  unpack_any join_descriptor len buf = do m ← Join.unpack c len buf; some (any_join m)
  unpack_any file_mappings_descriptor len buf = do
    m ← Mappings.unpack c len buf
    some (any_file_mappings m)
  unpack_any health_descriptor len buf = do m ← Health.unpack c len buf; some (any_health m)
  unpack_any from_master_descriptor len buf = do
    m ← FromMaster.unpack c len buf
    some (any_from_master m)
  unpack_any from_storage_descriptor len buf = do
    m ← FromStorage.unpack c len buf
    some (any_from_storage m)

  -- The functions that take a message, each of the message's type.
  pub record Calls : Type 0 where
    pub size : Option ℕ
    pub packed : Option Bytes
    pub appended : Option (ℕ × Bytes)
    pub freed : Option (List AnyMessage)

  abbrev pub calls : (buffer : Bytes) → AnyMessage → Calls
  calls buffer (any_join m) = record {
    size = Join.get_packed_size c m;
    packed = Join.pack c m;
    appended = Join.pack_to_buffer c m buffer;
    freed = Join.free_unpacked (some m);
  }
  calls buffer (any_file_mappings m) = record {
    size = Mappings.get_packed_size c m;
    packed = Mappings.pack c m;
    appended = Mappings.pack_to_buffer c m buffer;
    freed = Mappings.free_unpacked (some m);
  }
  calls buffer (any_health m) = record {
    size = Health.get_packed_size c m;
    packed = Health.pack c m;
    appended = Health.pack_to_buffer c m buffer;
    freed = Health.free_unpacked (some m);
  }
  calls buffer (any_from_master m) = record {
    size = FromMaster.get_packed_size c m;
    packed = FromMaster.pack c m;
    appended = FromMaster.pack_to_buffer c m buffer;
    freed = FromMaster.free_unpacked (some m);
  }
  calls buffer (any_from_storage m) = record {
    size = FromStorage.get_packed_size c m;
    packed = FromStorage.pack c m;
    appended = FromStorage.pack_to_buffer c m buffer;
    freed = FromStorage.free_unpacked (some m);
  }

  -- The library's answers.
  abbrev pub library_calls : (buffer : Bytes) → AnyMessage → Calls
  library_calls buffer m = record {
    size = some (c.message_get_packed_size m);
    packed = some (c.message_pack m);
    appended = some (c.message_pack_to_buffer m buffer);
    freed = some (m ∷ []);
  }

  -- A message that a program made: by `init` or `unpack`, and then by assignments to its fields.
  pub data IsMade : AnyMessage → Type 0 where
    initialised : (d : DescriptorName) → IsMade (init_any d)
    unpacked :
        (d : DescriptorName) (len : ℕ) (buf : Bytes) (m : AnyMessage)
        → unpack_any d len buf ≡ some m
        → IsMade m
    assigned :
        (m m' : AnyMessage)
        → IsMade m
        → base_of m' ≡ base_of m
        → own_descriptor m' ≡ own_descriptor m
        → IsMade m'

  own-calls :
      (buffer : Bytes) (m : AnyMessage)
      → base_of m ≡ own_descriptor m
      → calls buffer m ≡ library_calls buffer m
  unfolding Join.get_packed_size Join.pack Join.pack_to_buffer Join.free_unpacked
      Mappings.get_packed_size Mappings.pack Mappings.pack_to_buffer Mappings.free_unpacked
      Health.get_packed_size Health.pack Health.pack_to_buffer Health.free_unpacked
      FromMaster.get_packed_size FromMaster.pack FromMaster.pack_to_buffer FromMaster.free_unpacked
      FromStorage.get_packed_size FromStorage.pack FromStorage.pack_to_buffer
      FromStorage.free_unpacked assert_descriptor same_descriptor
  own-calls buffer (any_join m) e = rw e refl
  own-calls buffer (any_file_mappings m) e = rw e refl
  own-calls buffer (any_health m) e = rw e refl
  own-calls buffer (any_from_master m) e = rw e refl
  own-calls buffer (any_from_storage m) e = rw e refl

  -- What `unpack` of a type returns is what the library returned.
  through :
      {S : Type 0} (o : Option AnyMessage) (cast : AnyMessage → Option S) (any : S → AnyMessage)
      (m : AnyMessage)
      → ((x : AnyMessage) (s : S) → cast x ≡ some s → x ≡ any s)
      → (do s ← (do x ← o; cast x); some (any s)) ≡ some m
      → o ≡ some m
  through none cast any m casts e = absurd cc
  through (some x) cast any m casts e = elim (Option-cases (cast x)) [
    | inl failed ↦ absurd cc
    | inr (s, came) ↦ let same : x ≡ any s = casts x s came in cc
  ]

  unpack_any-library :
      (d : DescriptorName) (len : ℕ) (buf : Bytes) (m : AnyMessage)
      → unpack_any d len buf ≡ some m
      → c.message_unpack d (take len buf) ≡ some m
  unfolding Join.unpack Mappings.unpack Health.unpack FromMaster.unpack FromStorage.unpack
  unpack_any-library join_descriptor len buf m e = through _ Join.cast any_join m join-cast e
  unpack_any-library file_mappings_descriptor len buf m e =
      through _ Mappings.cast any_file_mappings m file_mappings-cast e
  unpack_any-library health_descriptor len buf m e =
      through _ Health.cast any_health m health-cast e
  unpack_any-library from_master_descriptor len buf m e =
      through _ FromMaster.cast any_from_master m from_master-cast e
  unpack_any-library from_storage_descriptor len buf m e =
      through _ FromStorage.cast any_from_storage m from_storage-cast e

  init_any-base : (d : DescriptorName) → base_of (init_any d) ≡ own_descriptor (init_any d)
  unfolding Join.init Mappings.init Health.init FromMaster.init FromStorage.init join_init
      file_mappings_init health_init from_master_init from_storage_init
  init_any-base join_descriptor = refl
  init_any-base file_mappings_descriptor = refl
  init_any-base health_descriptor = refl
  init_any-base from_master_descriptor = refl
  init_any-base from_storage_descriptor = refl

  IsMade-base : UnpacksOwn c → (m : AnyMessage) → IsMade m → base_of m ≡ own_descriptor m
  IsMade-base own m (initialised d) = init_any-base d
  IsMade-base own m (unpacked d len buf _ e) =
      let (base, type) = own d (take len buf) m (unpack_any-library d len buf m e) in
      base ∙ sym type
  IsMade-base own m (assigned before _ made same_base same_type) =
      same_base ∙ IsMade-base own before made ∙ sym same_type

  -- If the library unpacks messages of the descriptor that it is given, no message that was made by
  -- `init` or `unpack` of some type, whatever was assigned to its fields but the base, trips the
  -- assertion of a function of its type: its size, its bytes, what is appended to a buffer and what
  -- is freed are the library's.
  pub IsMade-calls :
      (own : UnpacksOwn c) (buffer : Bytes) (m : AnyMessage)
      → IsMade m
      → calls buffer m ≡ library_calls buffer m
  IsMade-calls own buffer m made = own-calls buffer m (IsMade-base own m made)
