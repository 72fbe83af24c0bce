-- ===== src/Tests.antt =====
-- Concrete nodes for the tests and the examples: tables, disks and requests.
pub mod Table
pub mod Chunks
pub mod Http
pub mod Format
pub mod Wire
pub mod Run
pub mod Master
pub mod Tasks
pub mod Generated
pub mod Client
use distributed_file_system.Base.{
  ℕ, ◌≤◌, ◌≡◌, refl, true, false, Option, none, some, List, [], ◌∷◌, Bytes, codes, arith,
}
use distributed_file_system.Base.Int.{ℤ, pos}
use distributed_file_system.Disk.Memory.{memory, Files}
use distributed_file_system.Proto.{FileMappings}
use distributed_file_system.State.{FileStateCurrentInner, StorageStateOuter, IsValid}
use distributed_file_system.State.Insert.{Allocations}
use distributed_file_system.FileOperation.{Node}
use distributed_file_system.HttpMain.{Resources, Connection}

abbrev pub name_a : Bytes
name_a = codes "a"

abbrev pub name_b : Bytes
name_b = codes "b"

-- Every allocation succeeds.
abbrev pub allocations : Allocations
allocations = record { files = true; path = true; chunks = true }

abbrev pub resources : Resources
resources = record {
  con_info = true;
  new_data = true;
  insert = allocations;
  shrunk = true;
  response_text = true;
  fd_response = true;
}

-- The table of a file `a` with chunk 0 and a file `b` with chunk 1, and one with `a` alone.
abbrev pub file_a : FileStateCurrentInner
file_a = record { file_path = name_a; chunk_ids = pos 0 ∷ []; num_chunks = 1 }

abbrev pub file_b : FileStateCurrentInner
file_b = record { file_path = name_b; chunk_ids = pos 1 ∷ []; num_chunks = 1 }

abbrev pub table_a : StorageStateOuter
table_a = record { file_to_chunk_state = file_a ∷ []; num_file_count = 1; lock = false }

abbrev pub table_ab : StorageStateOuter
table_ab = record { file_to_chunk_state = file_a ∷ file_b ∷ []; num_file_count = 2; lock = false }

pub table_a-IsValid : IsValid table_a
table_a-IsValid = record { unlocked = refl; allocated = omega arith; chunks = (omega arith, tt) }

pub table_ab-IsValid : IsValid table_ab
table_ab-IsValid = record {
  unlocked = refl;
  allocated = omega arith;
  chunks = (omega arith, (omega arith, tt));
}

-- The disks that go with them.
abbrev pub disk_a : Files
disk_a = (codes "data", none) ∷ (codes "data/a", none) ∷ (codes "data/a/0", some (codes "xyz")) ∷ []

abbrev pub disk_ab : Files
disk_ab =
    (codes "data", none)
    ∷ (codes "data/a", none)
    ∷ (codes "data/a/0", some (codes "xyz"))
    ∷ (codes "data/b", none)
    ∷ (codes "data/b/1", some (codes "uv"))
    ∷ []

abbrev pub node_a : Node memory
node_a = record { storage = table_a; disk = disk_a }

abbrev pub node_ab : Node memory
node_ab = record { storage = table_ab; disk = disk_ab }
