-- ===== src/Protocol.antt =====
-- src/domain/protocol.rs: the requests and responses of the JSON protocol, which the application layer
-- speaks. Their JSON form is derived by serde.
use can_bridge_daemon.Prelude.{ℕ, Bool, String, Option, List, Result}

pub record FrameFilter : Type 0 where
  pub iface : Option String
  pub id : Option ℕ
  pub id_mask : Option ℕ
  pub is_fd : Option Bool
  pub min_len : Option ℕ
  pub max_len : Option ℕ

pub data ClientRequest : Type 0 where
  client_hello : (client protocol : String) → ClientRequest
  ping : (id : ℕ) → ClientRequest
  list_ifaces : ClientRequest
  subscribe : (ifaces : List String) (filters : List FrameFilter) → ClientRequest
  unsubscribe : ClientRequest
  send_frame : (iface : String) (id : ℕ) (is_fd brs esi : Bool) (data_hex : String) → ClientRequest

pub data DaemonResponse : Type 0 where
  hello_ack : (version : String) (features : List String) (server_name : String) → DaemonResponse
  pong : (id : ℕ) → DaemonResponse
  ifaces : (items : List String) → DaemonResponse
  subscribed : (ifaces : List String) → DaemonResponse
  unsubscribed : DaemonResponse
  frame :
      (ts_ms : ℕ) (iface dir : String) (id : ℕ) (is_fd : Bool) (data_hex : String) → DaemonResponse
  send_ack : (ok : Bool) (error_message : Option String) → DaemonResponse
  error : (message : String) → DaemonResponse

-- What the JSON sessions use of serde: the decoding of a request, with the text of its error, and the derived
-- `Debug` of a request.
pub record Serde : Type 0 where
  pub from_str : String → Result String ClientRequest
  pub debug_request : ClientRequest → String
