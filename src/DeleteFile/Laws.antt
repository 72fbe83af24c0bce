-- ===== src/DeleteFile/Laws.antt =====
-- What a deletion does to a storage node.
use distributed_file_system.Disk.{Disk}
