-- ===== src/Daemon/Kinds/GrpcStream.antt =====
-- The stream of a gRPC subscription as a kind of session of the daemon: `subscribe` of src/infra/transport_grpc.rs. It
-- has no requests, so its reader has no turns; what its writer takes are the items that the client polls.
use mathlib.Core.List.{Mem}
use can_bridge_daemon.Prelude.{◌≡◌, refl, true, String, List, [], foldl}
use can_bridge_daemon.Frame.{FrameEvent}
use can_bridge_daemon.Service.{Ports, BridgeService}
use can_bridge_daemon.Subscription.{contains, insert, update_subscription_set, should_send_frame}
use can_bridge_daemon.Subscription.Selects.{should_send_frame-update}
use can_bridge_daemon.Daemon.{Kind, KindLaws}

module _ {W : Type 0} (ifaces : List String) where
  -- The set is made of the interfaces of the call, and a lagged receiver is only logged.
  abbrev pub grpc_kind : Kind W
  grpc_kind = record {
    State = BridgeService W;
    Response = Unit {0};
    transport = record {
      selects = λ r ev. contains (foldl insert [] ifaces) ev.iface;
      serializes = λ item. true;
      goes_on = true;
    };
    Turn = λ r rs r'. ⊥;
    sent = λ r. [];
    service = λ r. r;
    with_service = λ b r. b;
    start = λ b. b;
  }

  -- An event of an interface of the call.
  abbrev pub Called : BridgeService W → FrameEvent → Type 0
  Called r ev = Mem ev.iface ifaces

  selected-Called :
      (r : BridgeService W) (ev : FrameEvent)
      → contains (foldl insert [] ifaces) ev.iface ≡ true
      → Called r ev
  unfolding should_send_frame update_subscription_set
  selected-Called r ev e = (should_send_frame-update [] ifaces ev).0 e

  pub grpc_laws : (ports : Ports W) → KindLaws ports grpc_kind Called
  grpc_laws ports = record {
    publishes = λ r rs r' turn. absurd turn;
    appends = λ r rs r' turn. absurd turn;
    service_given = λ b r. refl;
    sent_given = λ b r. refl;
    serializes = λ item. refl;
    Good = λ r. Unit {0};
    grants = λ r ev good e. selected-Called r ev e;
    keeps = λ r rs r' turn. absurd turn;
    stays = λ r rs r' ev turn. absurd turn;
    Good_given = λ b r good. good;
    Granted_given = λ b r ev granted. granted;
    Good_start = λ b. tt;
  }
