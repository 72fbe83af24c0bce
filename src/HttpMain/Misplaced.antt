-- ===== src/HttpMain/Misplaced.antt =====
-- An upload whose chunk id goes to the entry of another file, and the download after it.
use distributed_file_system.Base.{
  ℕ, ◌≡◌, ◌≢◌, refl, ap, sym, ◌∙◌, subst, inl, inr, true, false, Option, some, List, [], ◌∷◌, ◌++◌,
  length, Bytes, codes,
}
use distributed_file_system.Base.Int.{ℤ}
use distributed_file_system.Decimal.{atoi}
use distributed_file_system.Disk.{Disk, IsPosix}
use distributed_file_system.Proto.{FileMappings}
use distributed_file_system.State.{IsValid, catalogue}
use distributed_file_system.State.Insert.{inserted}
use distributed_file_system.FileOperation.{
  Node, full_path, dir_path, file_exists, directory_has_files, save_chunk_to_file,
}
use distributed_file_system.FileOperation.Save.{appears, flushed, save_chunk_to_file_cases}
use distributed_file_system.GetFileDescriptor.{has_chunk}
use distributed_file_system.GetFileDescriptor.Search.{has_chunk-inserted_other}
use distributed_file_system.HandleNewChunk.{ConnectionInfo, success_text}
use distributed_file_system.HttpMain.{
  Resources, Reply, queued, json, http_ok, http_not_found, Connection, answer_to_connection,
}
use distributed_file_system.HttpMain.Chunks.{
  upload, download, upload_result, upload-save, uploaded_inv, download_missing,
}

module _ (d : Disk) (x : IsPosix d) where
  -- A chunk that is lost. On a node with a valid table, let the last call of an upload with a body
  -- that is not empty not fault, the path of its file name nothing before, nor once the directories
  -- on it are made, the write be flushed when the file is closed, and the table not have the chunk. If
  -- the directory of the file has a chunk but the last entry of the table is of another name, the
  -- call answers 200 and the file has the bytes, yet every download of the chunk from the node that
  -- it leaves answers 404.
  pub download-upload_misplaced :
      (res res' : Resources) (f str : Bytes) (b : ℕ) (bytes : Bytes) (c c' c'' : Connection d)
      (r : Reply) (con_info : ConnectionInfo) (pre : List FileMappings) (m : FileMappings)
      → IsValid c.node.storage
      → c.con_cls ≡ some (record { body = some (b ∷ bytes); size = length (b ∷ bytes) })
      → answer_to_connection d res (upload f str) c ≡ some (r, c')
      → file_exists d (full_path f (atoi str)) c.node.disk ≡ false
      → appears d (full_path f (atoi str)) c.node.disk ≡ false
      → flushed d (full_path f (atoi str)) (b ∷ bytes) c.node.disk ≡ true
      → has_chunk f (atoi str) (catalogue c.node.storage) ≡ false
      → directory_has_files d (dir_path f) c.node.disk ≡ true
      → catalogue c.node.storage ≡ pre ++ m ∷ []
      → m.filename ≢ f
      → c''.node ≡ c'.node
      → c''.con_cls ≡ some con_info
      → (r ≡ queued http_ok (json (success_text (atoi str) (length (b ∷ bytes)))))
        × (d.content (full_path f (atoi str)) c'.node.disk ≡ some (b ∷ bytes))
        × (answer_to_connection d res' (download f str) c''
            ≡ some (queued http_not_found (json (codes "{\"error\":\"404 Not Found\"}")), c''))
  download-upload_misplaced res res' f str b bytes c c' c'' r con_info pre m v body answer new
        absent flush missing has last other same e' =
      elim (save_chunk_to_file_cases d x res.insert f (some (b ∷ bytes)) z c.node v) [
        | inl (fault, _) ↦ cc (given ∙ ap (upload_result d res z size c) fault)
        | inr (inl (disk, failed)) ↦ cc (given ∙ ap (upload_result d res z size c) failed)
        | inr (inr (inl (_, old))) ↦ cc (new, old)
        | inr (inr (inr (t, saved, w, table, inl there))) ↦ cc (absent, there)
        | inr (inr (inr (t, saved, w, table, inr (inl lost)))) ↦ cc (flush, lost)
        | inr (inr (inr (t, saved, w, table, inr (inr stored)))) ↦
            let (reply, conn) =
              uploaded_inv d res.response_text (queued http_ok (json (success_text z size))) r
                (record c { node = t }) c' (given ∙ ap (upload_result d res z size c) saved) in
            let at : c''.node ≡ t = same ∙ ap (λ k. k.node) conn in
            (
              reply,
              subst (λ (k : Connection d). d.content path k.node.disk ≡ some (b ∷ bytes)) (sym conn)
                  (sym stored),
              download_missing d res' f str con_info c'' e'
                  (subst (λ (n : Node d). IsValid n.storage) (sym at) w)
                  (subst (λ (n : Node d). has_chunk f z (catalogue n.storage) ≡ false) (sym at)
                    (ap (has_chunk f z) (table ∙ insertion)
                      ∙ has_chunk-inserted_other res.insert f z pre m other
                      ∙ ap (has_chunk f z) (sym last)
                      ∙ missing)),
            )
      ]
    where
      z : ℤ
      z = atoi str

      size : ℕ
      size = length (b ∷ bytes)

      path : Bytes
      path = full_path f z

      given : ◌≡◌ {A = Option (Reply × Connection d)} (some (r, c')) (
          upload_result d res z size c
            (save_chunk_to_file d res.insert (some f) (some (b ∷ bytes)) z c.node))
      given = sym answer ∙ upload-save d res f str b bytes c body

      insertion :
          inserted res.insert f z
            (directory_has_files d (dir_path f) c.node.disk)
            (catalogue c.node.storage)
          ≡ inserted res.insert f z true (pre ++ m ∷ [])
      insertion = rw (has, last) refl
