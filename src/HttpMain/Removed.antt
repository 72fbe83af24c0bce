-- ===== src/HttpMain/Removed.antt =====
-- A removal, and the downloads after it.
use distributed_file_system.Base.{none, some, [], Bytes, codes}
use distributed_file_system.Disk.{Disk}
use distributed_file_system.HttpMain.{Request}

abbrev pub removal : Bytes → Request
removal filename = record {
  method = codes "DELETE";
  url = codes "/remove-file";
  x_filename = some filename;
  x_chunk_id = none;
  upload_data = [];
}
