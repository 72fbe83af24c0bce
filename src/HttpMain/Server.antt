-- ===== src/HttpMain/Server.antt =====
-- storageLayer/httpServer/httpMain.c, `httpServer`: the thread that starts the daemon of
-- libmicrohttpd and stops it once the flag has fallen.
use distributed_file_system.Base.{Bool, true, false, List, [], ◌∷◌}

-- How the thread stands: the daemon did not start, it was stopped, or it still serves.
pub data ServerEnding : Type 0 where
  server_failed server_stopped server_running : ServerEnding

-- The loop: `*args->shouldWork` at every check, two seconds apart.
unfoldable pub serve_loop : List Bool → ServerEnding
serve_loop [] = server_running
serve_loop (false ∷ checks) = server_stopped
serve_loop (true ∷ checks) = serve_loop checks

-- Where it returns it has set the flag to false.
unfoldable pub http_server : (daemon : Bool) → (checks : List Bool) → ServerEnding
unfolding serve_loop
http_server false checks = server_failed
http_server true checks = serve_loop checks
