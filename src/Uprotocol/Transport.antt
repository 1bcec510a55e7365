-- ===== src/Uprotocol/Transport.antt =====
-- threadx-app/cross/app/src/minimqtransport.rs: sending uProtocol messages over MQTT.
use Prim.Native.String.{String}
use threadx_rust.Base.{
  true, ◌↔◌, ◌⊎◌, refl, arith, Bool, if◌then◌else◌, ℕ, Option, none, some, List, [], ◌∷◌, Prog, ok,
  panic, ◌≡◌,
}
use threadx_rust.Uprotocol.{UMessage, UStatus}

-- The errors of `minimq`, as far as they are told apart.
pub data MqttError : Type 0 where
  network : MqttError
  session_reset : MqttError
  other : MqttError

-- The client of `minimq`. `poll` gives the error, if any, and `publish` whether it succeeded.
pub record MqttApi (K : Type 0) : Type 0 where
  pub poll_client : K → Option MqttError × K
  pub client_is_connected : K → Bool × K
  pub publish :
      (topic : String) (payload : List ℕ) (properties : List (String × String)) → K → Bool × K

-- `UMessage::payload`, which prost generates: an absent payload is empty.
abbrev pub payload_bytes : UMessage → List ℕ
payload_bytes m = elim m.payload [ none ↦ [] | some b ↦ b ]

-- The keys of the user properties.
abbrev key_uprotocol_version : String
key_uprotocol_version = "uP"

abbrev key_message_id : String
key_message_id = "1"

abbrev key_type : String
key_type = "2"

abbrev key_source : String
key_source = "3"

abbrev pub user_properties : List (String × String)
user_properties =
    (key_uprotocol_version, "1")
    ∷ (key_message_id, "01956d55-177b-7556-baf6-040e3127165e")
    ∷ (key_type, "up-pub.v1")
    ∷ (key_source, "//vehicle_B/000A/2/800A")
    ∷ []

module _ {K : Type 0} (client : MqttApi K) where
  unfoldable pub poll : {E : Type 0} → Prog K E (Unit {0})
  poll k =
      let (r, k') = client.poll_client k in
      elim r [
        | none ↦ (ok tt, k')
        | some network ↦ (ok tt, k')
        | some session_reset ↦ (ok tt, k')
        | some other ↦ (panic, k')
      ]

  unfoldable pub is_connected : {E : Type 0} → Prog K E Bool
  is_connected k = let (b, k') = client.client_is_connected k in (ok b, k')

  unfoldable pub send : UMessage → Prog K UStatus (Unit {0})
  send message k =
      let (published, k') =
        client.publish "Vehicle_B/000A/0/2/800A" (payload_bytes message) user_properties k in
      (if published then ok tt else panic, k')

  -- Two messages with the same payload bytes are sent alike, whatever their type, source, sink and
  -- other attributes. Sending returns no error: it succeeds exactly when the client publishes the
  -- payload on the one topic with the fixed properties, and panics otherwise.
  pub send_ignores_attributes :
      (m m' : UMessage) (k : K)
      → payload_bytes m ≡ payload_bytes m'
      → (send m k ≡ send m' k)
        × (((send m k).0 ≡ ok tt) ⊎ ((send m k).0 ≡ panic))
        × (((send m k).0 ≡ ok tt) ↔ (
            (client.publish "Vehicle_B/000A/0/2/800A" (payload_bytes m) user_properties k).0
            ≡ true))
  unfolding send
  send_ignores_attributes m m' k p = (rw p refl, ground arith, ground arith)
