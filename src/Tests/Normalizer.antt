-- ===== src/Tests/Normalizer.antt =====
-- Concrete raw records, and the witnesses of the theorems on the normalizer.
use sentinel_linux.Prelude.{◌≡◌, refl, true, none, [], ◌∷◌, String}
use sentinel_linux.Prelude.Text.{decimal}
use sentinel_linux.RawEvents.{RawFileEvent, RawNetworkEvent, file_event, network_event}
use sentinel_linux.Prelude.Words.{strip_end}
use sentinel_linux.Normalizer.{map_network, Normalizer}
use sentinel_linux.Normalizer.Laws.{normalize_all, Normalized, run-Normalized}

abbrev changed : RawFileEvent
changed = record {
  common = record { occurred_at = 5000000; host = "web1"; action = "m"; severity = 9 };
  path = "/p";
  size = 1200;
  mode = "0644";
  sha256 = none;
  id_seed = "s";
}

abbrev listener : RawNetworkEvent
listener = record {
  common = record {
    occurred_at = 5000000;
    host = "web1";
    action = "listener_opened";
    severity = 3;
  };
  proto = "tcp";
  local_ip = "0.0.0.0";
  local_port = 8080;
  remote_ip = "0.0.0.0";
  remote_port = 0;
  state = "LISTEN";
  uid = 1000;
  inode = 7;
}

abbrev digest : String → String
digest text = text

listener_message :
    (map_network digest "localhost" listener).message
    ≡ "listener_opened: tcp 0.0.0.0:8080 (uid=1000)"
unfolding map_network decimal
listener_message = refl

stripped : strip_end "process_started: pid=7 " ≡ "process_started: pid=7"
stripped = refl

abbrev idle : Normalizer
idle = record { dead_letters = 0; normalized = 0 }

run-Normalized_example :
    Normalized digest "localhost"
      (λ e. true)
      idle
      (file_event changed ∷ network_event listener ∷ [])
      (normalize_all digest "localhost"
        (λ e. true)
        (file_event changed ∷ network_event listener ∷ [])
        idle)
run-Normalized_example =
    run-Normalized digest "localhost" (λ e. true) (file_event changed ∷ network_event listener ∷ [])
      idle
