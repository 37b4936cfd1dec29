-- ===== src/Tests/Adapters.antt =====
-- The SocketCAN and gRPC adapters and the generator at concrete inputs.
use can_bridge_daemon.Prelude.{
  ◌&&◌, ℕ, suc, ◌≤◌, ◌≡◌, refl, true, false, String, Option, none, some, List, [], ◌∷◌, ◌++◌,
  length, Result, ok, err, leb, le→leb, if◌then◌else◌,
}
use can_bridge_daemon.Frame.{FrameEvent, Direction}
use can_bridge_daemon.Protocol.{DaemonResponse}
use can_bridge_daemon.Service.{TxFrame, Ports, BridgeService}
use can_bridge_daemon.SocketCan.{
  ArbitrationId, IdApi, IdLaws, CanId, FrameApi, FrameLaws, SocketApi,
}
use can_bridge_daemon.SocketCan.Rx.{RxApi, run_one_iface_rx_blocking}
use can_bridge_daemon.SocketCan.Rx.Publishes.{bus, rx_events, run_one_iface-bus}
use can_bridge_daemon.Subscription.{contains}
use can_bridge_daemon.Discovery.{
  can_ifaces, collect, dedup, dedup_after, insert_sorted, is_can_like, sort, starts_with, str_lt,
}
use can_bridge_daemon.Discovery.Listed.{contains-can_ifaces, named}
use can_bridge_daemon.Grpc.{PbSendFrameReq, send_frame, subscribe}
use can_bridge_daemon.Grpc.Calls.{
  Answered, Selection, arrived, send_frame-answer, subscribe-Selection,
}

-- Ids that are their numbers.
abbrev checked : ℕ → ℕ → Option ℕ
checked bound n = if leb n bound then some n else none

checked-some : (bound n : ℕ) → n ≤ bound → checked bound n ≡ some n
checked-some bound n h = rw (le→leb n bound h) refl

abbrev pub ids : IdApi
ids = record {
  StandardId = ℕ;
  ExtendedId = ℕ;
  standard_new = checked 0x7FF;
  extended_new = checked 0x1FFFFFFF;
  standard_raw = λ i. i;
  extended_raw = λ i. i;
}

pub id_laws : IdLaws ids
id_laws = record {
  standard_taken = λ n h. (n, checked-some 0x7FF n h, refl);
  extended_taken = λ n h. (n, checked-some 0x1FFFFFFF n h, refl);
}

-- Frames that are their ids, payloads and flags; a flag is its number.
abbrev pub frames : FrameApi ids
frames = record {
  ClassicFrame = CanId ids × List ℕ;
  CanFdFrame = CanId ids × List ℕ × List ℕ;
  FdFlags = List ℕ;
  classic_new = λ i bytes. if leb (length bytes) 8 then some (i, bytes) else none;
  fd_with_flags = λ i bytes flags. if leb (length bytes) 64 then some (i, bytes, flags) else none;
  empty_flags = [];
  brs_flag = 1 ∷ [];
  esi_flag = 2 ∷ [];
  union = λ a b. a ++ b;
}

pub frame_laws : FrameLaws frames
frame_laws = record {
  classic_made = λ i bytes h. ((i, bytes), rw (le→leb (length bytes) 8 h) refl);
  fd_made = λ i bytes flags h. ((i, bytes, flags), rw (le→leb (length bytes) 64 h) refl);
}

-- A world that counts the frames written, and one interface.
abbrev pub sockets : SocketApi frames ℕ
sockets = record {
  ClassicSocket = Unit {0};
  FdSocket = Unit {0};
  open_classic = λ iface w. (ok tt, w);
  open_fd = λ iface w. (ok tt, w);
  write_classic = λ sock frame w. (ok tt, suc w);
  write_fd = λ sock frame w. (ok tt, suc w);
}

abbrev diagnostic : TxFrame
diagnostic = record {
  iface = "can0";
  id = 0x7E0;
  is_fd = false;
  brs = false;
  esi = false;
  bytes = 2 ∷ 1 ∷ 12 ∷ [];
}

abbrev pub flagged : TxFrame
flagged = record diagnostic { brs = true }

abbrev pub fd_flagged : TxFrame
fd_flagged = record flagged { is_fd = true }

-- Frames that are read as an id and a payload; a classic frame may be no data frame.
abbrev pub rx : RxApi ids
rx = record {
  CanFdFrame = CanId ids × List ℕ;
  CanFrame = Option (CanId ids × List ℕ);
  DataFrame = CanId ids × List ℕ;
  fd_id = λ f. f.0;
  fd_payload = λ f. f.1;
  any_frame = λ f. f;
  normal_id = λ f. f.0;
  normal_payload = λ f. f.1;
}

abbrev pub ports : Ports ℕ
ports = record {
  list_can_ifaces = λ w. (ok ("vcan0" ∷ []), w);
  send = λ f w. (ok tt, suc w);
  since_epoch_ms = λ w. (some w, suc w);
}

abbrev pub service : BridgeService ℕ
service = record { world = 1000; frames = [] }

abbrev classic_reads : List (Result String (Option (CanId ids × List ℕ)))
classic_reads =
    ok (some (ArbitrationId.standard 0x7E8, 1 ∷ []))
    ∷ err "timed out"
    ∷ ok none
    ∷ ok (some (ArbitrationId.extended 0x18DAF110, []))
    ∷ []

run_one_iface-bus_example :
    bus (run_one_iface_rx_blocking ports rx "can0" (err "no FD") (ok classic_reads) service)
    ≡ [] ++ rx_events ports rx "can0" (err "no FD") (ok classic_reads)
run_one_iface-bus_example =
    run_one_iface-bus ports rx "can0" (err "no FD") (ok classic_reads) service

abbrev request : PbSendFrameReq
request = record {
  iface = "can0";
  id = 0x123;
  is_fd = false;
  brs = false;
  esi = false;
  data_hex = "01 0A";
}

abbrev debug : DaemonResponse → String
debug resp = "a response"

send_frame-answer_example :
    Answered debug ports request service (send_frame debug ports request service)
send_frame-answer_example = send_frame-answer debug ports request service

abbrev on_can : String → FrameEvent
on_can iface = record {
  ts_ms = 5;
  iface = iface;
  dir = Direction.rx;
  id = 0x7E8;
  is_fd = false;
  bytes = 1 ∷ 255 ∷ [];
}

abbrev items : List (Option FrameEvent)
items = some (on_can "can0") ∷ none ∷ some (on_can "can1") ∷ []

subscribe-Selection_example :
    Selection ("can1" ∷ []) (arrived items) (subscribe ("can1" ∷ []) items)
subscribe-Selection_example = subscribe-Selection ("can1" ∷ []) items

abbrev pub links : List (Option String)
links = some "vcan0" ∷ none ∷ some "eth0" ∷ some "can0" ∷ some "vcan0" ∷ []

can_ifaces_run : can_ifaces links ≡ "can0" ∷ "vcan0" ∷ []
unfolding can_ifaces dedup dedup_after sort insert_sorted str_lt collect is_can_like starts_with
can_ifaces_run = refl

contains-can_ifaces_example :
    contains (can_ifaces links) "eth0" ≡ (is_can_like "eth0" && named links "eth0")
contains-can_ifaces_example = contains-can_ifaces links "eth0"
