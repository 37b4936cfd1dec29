-- ===== src/WsServer.antt =====
-- src/infra/transport_ws/ws_json_or_binary_server.rs: what serves a path, and what `run` returns. Listening and
-- serving are of tokio and axum, and their outcomes are arguments.
use Prim.Native.String
use can_bridge_daemon.Prelude.{String, Option, none, some, Result, ok, err, str_eq, if◌then◌else◌}

pub data Handler : Type 0 where
  ws_jsonl_handler ws_binary_handler : Handler

-- The router, on a path.
unfoldable pub route : String → Option Handler
route path =
    if str_eq path "/ws/text"
    then some Handler.ws_jsonl_handler
    else if str_eq path "/ws/binary"
    then some Handler.ws_binary_handler
    else none

-- `run` on an address of the text `addr`, with the outcomes of `bind` and of `serve`; an error is the text of its
-- outermost context.
unfoldable pub run :
    String → Result String (Unit {0}) → Result String (Unit {0}) → Result String (Unit {0})
run addr (err e) serve = err (String.◌++◌ "failed to bind WS listener on " addr)
run addr (ok _) (err e) = err "axum serve failed"
run addr (ok _) (ok _) = ok tt
