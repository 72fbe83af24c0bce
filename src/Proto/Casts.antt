-- ===== src/Proto/Casts.antt =====
-- The casts behind `unpack` in storageLayer/proto/data.pb-c.c.
use distributed_file_system.Base.{◌≡◌, some}
use distributed_file_system.Proto.Structs.{
  JoinStruct, FileMappingsStruct, HealthStruct, FromMasterStruct, FromStorageStruct, AnyMessage,
  any_join, any_file_mappings, any_health, any_from_master, any_from_storage,
}
use distributed_file_system.Proto.Join
use distributed_file_system.Proto.Mappings
use distributed_file_system.Proto.Health
use distributed_file_system.Proto.FromMaster
use distributed_file_system.Proto.FromStorage

-- A cast is to the type that the message has.
pub join-cast : (x : AnyMessage) (s : JoinStruct) → Join.cast x ≡ some s → x ≡ any_join s
unfolding Join.cast
join-cast (any_join m) s e = cc
join-cast (any_file_mappings m) s e = absurd cc
join-cast (any_health m) s e = absurd cc
join-cast (any_from_master m) s e = absurd cc
join-cast (any_from_storage m) s e = absurd cc

pub file_mappings-cast :
    (x : AnyMessage) (s : FileMappingsStruct) → Mappings.cast x ≡ some s → x ≡ any_file_mappings s
unfolding Mappings.cast
file_mappings-cast (any_join m) s e = absurd cc
file_mappings-cast (any_file_mappings m) s e = cc
file_mappings-cast (any_health m) s e = absurd cc
file_mappings-cast (any_from_master m) s e = absurd cc
file_mappings-cast (any_from_storage m) s e = absurd cc

pub health-cast : (x : AnyMessage) (s : HealthStruct) → Health.cast x ≡ some s → x ≡ any_health s
unfolding Health.cast
health-cast (any_join m) s e = absurd cc
health-cast (any_file_mappings m) s e = absurd cc
health-cast (any_health m) s e = cc
health-cast (any_from_master m) s e = absurd cc
health-cast (any_from_storage m) s e = absurd cc

pub from_master-cast :
    (x : AnyMessage) (s : FromMasterStruct) → FromMaster.cast x ≡ some s → x ≡ any_from_master s
unfolding FromMaster.cast
from_master-cast (any_join m) s e = absurd cc
from_master-cast (any_file_mappings m) s e = absurd cc
from_master-cast (any_health m) s e = absurd cc
from_master-cast (any_from_master m) s e = cc
from_master-cast (any_from_storage m) s e = absurd cc

pub from_storage-cast :
    (x : AnyMessage) (s : FromStorageStruct) → FromStorage.cast x ≡ some s → x ≡ any_from_storage s
unfolding FromStorage.cast
from_storage-cast (any_join m) s e = absurd cc
from_storage-cast (any_file_mappings m) s e = absurd cc
from_storage-cast (any_health m) s e = absurd cc
from_storage-cast (any_from_master m) s e = absurd cc
from_storage-cast (any_from_storage m) s e = cc
