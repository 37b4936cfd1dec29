-- ===== src/Subscription.antt =====
-- The subscription state of a connection, which src/infra/transport_tcp and src/infra/transport_ws repeat
-- in each session: a `HashSet<String>` of interfaces, and in ws_jsonl.rs the active filters. A set is
-- the list of its elements; the program never iterates over it.
pub mod Filters
pub mod Selects
use can_bridge_daemon.Prelude.{
  ℕ, Bool, true, false, ◌||◌, String, List, [], ◌∷◌, foldl, str_eq, if◌then◌else◌,
}
use can_bridge_daemon.Frame.{FrameEvent}

unfoldable pub contains : List String → String → Bool
contains [] iface = false
contains (x ∷ set) iface = str_eq x iface || contains set iface

unfoldable pub insert : List String → String → List String
unfolding contains
insert set iface = if contains set iface then set else iface ∷ set

-- `set.clear()`, and `set.insert` of each interface
unfoldable pub update_subscription_set : List String → List String → List String
unfolding insert
update_subscription_set set ifaces = foldl insert [] ifaces

unfoldable pub clear_subscription_set : List String → List String
clear_subscription_set set = []

unfoldable pub should_send_frame : List String → FrameEvent → Bool
unfolding contains
should_send_frame set frame_event = contains set frame_event.iface
