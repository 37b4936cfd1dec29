-- ===== src/Tests/Whole.antt =====
-- The composed daemon and the example client at concrete inputs.
use can_bridge_daemon.Prelude.{
  ℕ, ◌≡◌, ◌↔◌, ◌⊎◌, refl, true, false, String, none, some, List, [], ◌∷◌, ◌++◌, map, ok, arith,
  if◌then◌else◌,
}
use can_bridge_daemon.Protocol.{DaemonResponse}
use can_bridge_daemon.Service.{Ports, handle}
use can_bridge_daemon.SocketCan.Tx.Accepts.{Acceptable}
use can_bridge_daemon.Discovery.{LinkAttribute, NetlinkApi, can_ifaces}
use can_bridge_daemon.Discovery.Canonical.{SameNames, can_ifaces_iff}
use can_bridge_daemon.Discovery.Sorted.{Ascends, can_ifaces-Ascends}
use can_bridge_daemon.TcpJson.{trim}
use can_bridge_daemon.Startup.{daemon_ports, start_sources}
use can_bridge_daemon.Startup.Readers.{all_of, start_sources-can_ifaces}
use can_bridge_daemon.Startup.Sends.{send_request, Carried, handle-daemon_ports}
use can_bridge_daemon.BinarySession.{Texts, SessionError, failed}
use can_bridge_daemon.TcpBinary.{read, timeout, start, run, tcp_texts}
use can_bridge_daemon.ExampleClient.{BufMut, BufMutLaws, to_be16, to_be32, encode_frame}
use can_bridge_daemon.ExampleClient.Mismatch.{run-frame}
use can_bridge_daemon.Tests.Adapters.{
  id_laws, frames, frame_laws, sockets, fd_flagged, service, links,
}

abbrev netlink : NetlinkApi ℕ
netlink = record {
  get_links =
      λ w. (ok (ok (LinkAttribute.other_attribute ∷ LinkAttribute.if_name "can0" ∷ []) ∷ []), w);
}

-- A CAN-FD frame with its BRS flag, which is taken.
handle-daemon_ports_example :
    (Acceptable fd_flagged
      × Carried
          (daemon_ports netlink frames sockets (λ w. (none, w)))
          frames
          sockets
          fd_flagged.is_fd
          fd_flagged
          service
          (handle
            (daemon_ports netlink frames sockets (λ w. (none, w)))
            (send_request fd_flagged)
            service))
    ⊎ ((¬ Acceptable fd_flagged)
        × ((message : String) × (handle
                (daemon_ports netlink frames sockets (λ w. (none, w)))
                (send_request fd_flagged)
                service
              ≡ (DaemonResponse.send_ack false (some message), service))))
handle-daemon_ports_example =
    handle-daemon_ports netlink frames sockets (λ w. (none, w)) id_laws frame_laws fd_flagged
      service (omega arith, (omega arith, (omega arith, tt)))

can_ifaces-Ascends_example : Ascends (can_ifaces links)
can_ifaces-Ascends_example = can_ifaces-Ascends links

start_sources-can_ifaces_example : start_sources true (ok (can_ifaces links)) ≡ record {
  readers = map trim (can_ifaces links);
  generator = if true then all_of (can_ifaces links) else none;
}
start_sources-can_ifaces_example = start_sources-can_ifaces true links

-- The crate's appending, by its documentation.
abbrev buf : BufMut
buf = record { put_u16 = λ out v. out ++ to_be16 v; put_u32 = λ out v. out ++ to_be32 v }

buf_laws : BufMutLaws buf
buf_laws = record { put_u16_lem = λ out v h. refl; put_u32_lem = λ out v h. refl }

abbrev texts : Texts
texts = tcp_texts (λ r. "a request") (λ r. "a response")

abbrev client_ports : Ports ℕ
client_ports = daemon_ports netlink frames sockets (λ w. (none, w))

-- A hello with a payload of seven bytes.
abbrev hello : List ℕ
hello = encode_frame buf 101 0 (0 ∷ 1 ∷ 99 ∷ 0 ∷ 2 ∷ 118 ∷ 49 ∷ [])

run-frame_example :
    run client_ports texts (start service) (read hello ∷ timeout ∷ [])
    ≡ record (start service) { phase = failed SessionError.hello_timeout; receive_buffer = hello }
run-frame_example =
    run-frame buf buf_laws client_ports texts service 101 0 (0 ∷ 1 ∷ 99 ∷ 0 ∷ 2 ∷ 118 ∷ 49 ∷ [])
      (omega arith) (omega arith) (omega arith) (omega arith)

-- The order of the links, and one that is no CAN interface, make no difference.
can_ifaces_iff_example :
    (can_ifaces links ≡ can_ifaces (some "can0" ∷ some "vcan0" ∷ some "lo" ∷ []))
    ↔ SameNames links (some "can0" ∷ some "vcan0" ∷ some "lo" ∷ [])
can_ifaces_iff_example = can_ifaces_iff links (some "can0" ∷ some "vcan0" ∷ some "lo" ∷ [])
