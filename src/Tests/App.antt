-- ===== src/Tests/App.antt =====
-- The application layer at concrete inputs.
use can_bridge_daemon.Prelude.{
  ◌≡◌, ◌↔◌, refl, true, false, none, some, [], ◌∷◌, All, map, ok, err, arith,
}
use can_bridge_daemon.Text.{as_bytes, from_utf8}
use can_bridge_daemon.Text.Utf8.{IsByte}
use can_bridge_daemon.Protocol.{FrameFilter}
use can_bridge_daemon.Frame.{FrameEvent, Direction}
use can_bridge_daemon.Hex.{
  hex_digits, bytes_to_hex_lower, filter_whitespace, val, hex_pairs, hex_to_bytes, invalid_char,
  odd_length,
}
use can_bridge_daemon.Hex.RoundTrip.{
  hex_to_bytes-bytes_to_hex_lower, hex_to_bytes_inv, to_ascii_lowercase,
}
use can_bridge_daemon.Subscription.Filters.{frame_matches_filter, Matches, frame_matches_filter_iff}

hex_mixed : hex_to_bytes "0A ff\n" ≡ ok (10 ∷ 255 ∷ [])
unfolding hex_to_bytes hex_pairs val filter_whitespace as_bytes
hex_mixed = refl

hex_odd : hex_to_bytes "0A f" ≡ err odd_length
unfolding hex_to_bytes hex_pairs val filter_whitespace as_bytes
hex_odd = refl

hex_bad : hex_to_bytes "0g" ≡ err (invalid_char 103)
unfolding hex_to_bytes hex_pairs val filter_whitespace as_bytes
hex_bad = refl

hex_shown : bytes_to_hex_lower (10 ∷ 255 ∷ []) ≡ "0aff"
unfolding bytes_to_hex_lower from_utf8
hex_shown = refl

hex_to_bytes-bytes_to_hex_lower_example :
    hex_to_bytes (bytes_to_hex_lower (10 ∷ 255 ∷ [])) ≡ ok (10 ∷ 255 ∷ [])
hex_to_bytes-bytes_to_hex_lower_example =
    hex_to_bytes-bytes_to_hex_lower (10 ∷ 255 ∷ []) (omega arith)

hex_to_bytes_inv_example :
    (hex_digits (10 ∷ 255 ∷ []) ≡ map to_ascii_lowercase (as_bytes (filter_whitespace "0A ff\n")))
    × All IsByte (10 ∷ 255 ∷ [])
hex_to_bytes_inv_example = hex_to_bytes_inv "0A ff\n" (10 ∷ 255 ∷ []) hex_mixed

abbrev event : FrameEvent
event = record {
  ts_ms = 5;
  iface = "can1";
  dir = Direction.rx;
  id = 0x7E8;
  is_fd = false;
  bytes = 1 ∷ [];
}

abbrev obd : FrameFilter
obd = record {
  iface = none;
  id = some 0x7E0;
  id_mask = some 0x7F0;
  is_fd = none;
  min_len = some 1;
  max_len = none;
}

obd_matches : frame_matches_filter event obd ≡ true
unfolding frame_matches_filter
obd_matches = refl

frame_matches_filter_iff_example : (frame_matches_filter event obd ≡ true) ↔ Matches event obd
frame_matches_filter_iff_example = frame_matches_filter_iff event obd
