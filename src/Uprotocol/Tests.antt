-- ===== src/Uprotocol/Tests.antt =====
-- threadx-app/cross/app/src: names of uProtocol, and messages on a client that keeps payloads.
use Prim.Native.String.{[]}
use threadx_rust.Base.{
  List, [], ◌∷◌, panic, ◌⊎◌, ◌↔◌, ok, ◌∷◌, true, some, List, none, ℕ, ◌≡◌, refl,
}
use threadx_rust.Uprotocol.{
  checksum_type_name, checksum_type_from_name, ChecksumType, u_payload_format_name,
  u_payload_format_from_name, UPayloadFormat, u_priority_name, u_priority_from_name, UPriority,
  u_message_type_name, u_message_type_from_name, UMessageType, u_code_name, u_code_from_name, UCode,
  UMessage, UAttributes,
}
use threadx_rust.Uprotocol.Names.{from_name_iff}
use threadx_rust.Uprotocol.Transport.{MqttApi, send, send_ignores_attributes}

from_name_iff_example :
    ((c : UCode) → (u_code_from_name "MD5" ≡ some c) ↔ (u_code_name c ≡ "MD5"))
    × ((c : UMessageType)
        → (u_message_type_from_name "MD5" ≡ some c) ↔ (u_message_type_name c ≡ "MD5"))
    × ((c : UPriority) → (u_priority_from_name "MD5" ≡ some c) ↔ (u_priority_name c ≡ "MD5"))
    × ((c : UPayloadFormat)
        → (u_payload_format_from_name "MD5" ≡ some c) ↔ (u_payload_format_name c ≡ "MD5"))
    × ((c : ChecksumType)
        → (checksum_type_from_name "MD5" ≡ some c) ↔ (checksum_type_name c ≡ "MD5"))
from_name_iff_example = from_name_iff "MD5"

abbrev client : MqttApi (List (List ℕ))
client = record {
  poll_client = λ k. (none, k);
  client_is_connected = λ k. (true, k);
  publish = λ t p u k. (true, p ∷ k);
}

abbrev attributes : UAttributes
attributes = record {
  id = none;
  message_type = 4;
  source = none;
  sink = none;
  priority = 7;
  ttl = some 100;
  permission_level = none;
  commstatus = none;
  reqid = none;
  token = none;
  traceparent = none;
  payload_format = 6;
}

abbrev plain : UMessage
plain = record { attributes = none; payload = some (1 ∷ 2 ∷ []) }

abbrev urgent : UMessage
urgent = record { attributes = some attributes; payload = some (1 ∷ 2 ∷ []) }

send_ignores_attributes_example :
    (send client plain [] ≡ send client urgent [])
    × (((send client plain []).0 ≡ ok tt) ⊎ ((send client plain []).0 ≡ panic))
    × (((send client plain []).0 ≡ ok tt) ↔ (true ≡ true))
send_ignores_attributes_example = send_ignores_attributes client plain urgent [] refl
