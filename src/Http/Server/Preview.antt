-- ===== src/Http/Server/Preview.antt =====
-- A preview from the HTTP request to the reply (handler/mued.go, runtime/handler.go).
use shimmy_wasm_go.Http.Reply.{Reply}
