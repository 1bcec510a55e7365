-- ===== src/Uprotocol/Formats.antt =====
-- threadx-app/cross/app/src/uprotocol_v1.rs: the other enums of the data model.
use Prim.Native.String.{String}
use threadx_rust.Base.{ℕ, Option, List, [], ◌∷◌}
use threadx_rust.Uprotocol.Match.{match_name}

pub data UMessageType : Type 0 where
  umessage_type_unspecified : UMessageType
  umessage_type_publish : UMessageType
  umessage_type_request : UMessageType
  umessage_type_response : UMessageType
  umessage_type_notification : UMessageType

-- The discriminants of `UMessageType`.
unfoldable pub u_message_type_value : UMessageType → ℕ
u_message_type_value umessage_type_unspecified = 0
u_message_type_value umessage_type_publish = 1
u_message_type_value umessage_type_request = 2
u_message_type_value umessage_type_response = 3
u_message_type_value umessage_type_notification = 4

-- `UMessageType::as_str_name`
unfoldable pub u_message_type_name : UMessageType → String
u_message_type_name umessage_type_unspecified = "UMESSAGE_TYPE_UNSPECIFIED"
u_message_type_name umessage_type_publish = "UMESSAGE_TYPE_PUBLISH"
u_message_type_name umessage_type_request = "UMESSAGE_TYPE_REQUEST"
u_message_type_name umessage_type_response = "UMESSAGE_TYPE_RESPONSE"
u_message_type_name umessage_type_notification = "UMESSAGE_TYPE_NOTIFICATION"

-- The arms of `UMessageType::from_str_name`, in their order.
abbrev pub u_message_type_arms : List (String × UMessageType)
u_message_type_arms =
    ("UMESSAGE_TYPE_UNSPECIFIED", umessage_type_unspecified)
    ∷ ("UMESSAGE_TYPE_PUBLISH", umessage_type_publish)
    ∷ ("UMESSAGE_TYPE_REQUEST", umessage_type_request)
    ∷ ("UMESSAGE_TYPE_RESPONSE", umessage_type_response)
    ∷ ("UMESSAGE_TYPE_NOTIFICATION", umessage_type_notification)
    ∷ []

-- `UMessageType::from_str_name`
unfoldable pub u_message_type_from_name : String → Option UMessageType
u_message_type_from_name value = match_name value u_message_type_arms

pub data UPriority : Type 0 where
  upriority_unspecified : UPriority
  upriority_cs0 : UPriority
  upriority_cs1 : UPriority
  upriority_cs2 : UPriority
  upriority_cs3 : UPriority
  upriority_cs4 : UPriority
  upriority_cs5 : UPriority
  upriority_cs6 : UPriority

-- The discriminants of `UPriority`.
unfoldable pub u_priority_value : UPriority → ℕ
u_priority_value upriority_unspecified = 0
u_priority_value upriority_cs0 = 1
u_priority_value upriority_cs1 = 2
u_priority_value upriority_cs2 = 3
u_priority_value upriority_cs3 = 4
u_priority_value upriority_cs4 = 5
u_priority_value upriority_cs5 = 6
u_priority_value upriority_cs6 = 7

-- `UPriority::as_str_name`
unfoldable pub u_priority_name : UPriority → String
u_priority_name upriority_unspecified = "UPRIORITY_UNSPECIFIED"
u_priority_name upriority_cs0 = "UPRIORITY_CS0"
u_priority_name upriority_cs1 = "UPRIORITY_CS1"
u_priority_name upriority_cs2 = "UPRIORITY_CS2"
u_priority_name upriority_cs3 = "UPRIORITY_CS3"
u_priority_name upriority_cs4 = "UPRIORITY_CS4"
u_priority_name upriority_cs5 = "UPRIORITY_CS5"
u_priority_name upriority_cs6 = "UPRIORITY_CS6"

-- The arms of `UPriority::from_str_name`, in their order.
abbrev pub u_priority_arms : List (String × UPriority)
u_priority_arms =
    ("UPRIORITY_UNSPECIFIED", upriority_unspecified)
    ∷ ("UPRIORITY_CS0", upriority_cs0)
    ∷ ("UPRIORITY_CS1", upriority_cs1)
    ∷ ("UPRIORITY_CS2", upriority_cs2)
    ∷ ("UPRIORITY_CS3", upriority_cs3)
    ∷ ("UPRIORITY_CS4", upriority_cs4)
    ∷ ("UPRIORITY_CS5", upriority_cs5)
    ∷ ("UPRIORITY_CS6", upriority_cs6)
    ∷ []

-- `UPriority::from_str_name`
unfoldable pub u_priority_from_name : String → Option UPriority
u_priority_from_name value = match_name value u_priority_arms

pub data UPayloadFormat : Type 0 where
  upayload_format_unspecified : UPayloadFormat
  upayload_format_protobuf_wrapped_in_any : UPayloadFormat
  upayload_format_protobuf : UPayloadFormat
  upayload_format_json : UPayloadFormat
  upayload_format_someip : UPayloadFormat
  upayload_format_someip_tlv : UPayloadFormat
  upayload_format_raw : UPayloadFormat
  upayload_format_text : UPayloadFormat
  upayload_format_shm : UPayloadFormat

-- The discriminants of `UPayloadFormat`.
unfoldable pub u_payload_format_value : UPayloadFormat → ℕ
u_payload_format_value upayload_format_unspecified = 0
u_payload_format_value upayload_format_protobuf_wrapped_in_any = 1
u_payload_format_value upayload_format_protobuf = 2
u_payload_format_value upayload_format_json = 3
u_payload_format_value upayload_format_someip = 4
u_payload_format_value upayload_format_someip_tlv = 5
u_payload_format_value upayload_format_raw = 6
u_payload_format_value upayload_format_text = 7
u_payload_format_value upayload_format_shm = 8

-- `UPayloadFormat::as_str_name`
unfoldable pub u_payload_format_name : UPayloadFormat → String
u_payload_format_name upayload_format_unspecified = "UPAYLOAD_FORMAT_UNSPECIFIED"
u_payload_format_name upayload_format_protobuf_wrapped_in_any =
    "UPAYLOAD_FORMAT_PROTOBUF_WRAPPED_IN_ANY"
u_payload_format_name upayload_format_protobuf = "UPAYLOAD_FORMAT_PROTOBUF"
u_payload_format_name upayload_format_json = "UPAYLOAD_FORMAT_JSON"
u_payload_format_name upayload_format_someip = "UPAYLOAD_FORMAT_SOMEIP"
u_payload_format_name upayload_format_someip_tlv = "UPAYLOAD_FORMAT_SOMEIP_TLV"
u_payload_format_name upayload_format_raw = "UPAYLOAD_FORMAT_RAW"
u_payload_format_name upayload_format_text = "UPAYLOAD_FORMAT_TEXT"
u_payload_format_name upayload_format_shm = "UPAYLOAD_FORMAT_SHM"

-- The arms of `UPayloadFormat::from_str_name`, in their order.
abbrev pub u_payload_format_arms : List (String × UPayloadFormat)
u_payload_format_arms =
    ("UPAYLOAD_FORMAT_UNSPECIFIED", upayload_format_unspecified)
    ∷ ("UPAYLOAD_FORMAT_PROTOBUF_WRAPPED_IN_ANY", upayload_format_protobuf_wrapped_in_any)
    ∷ ("UPAYLOAD_FORMAT_PROTOBUF", upayload_format_protobuf)
    ∷ ("UPAYLOAD_FORMAT_JSON", upayload_format_json)
    ∷ ("UPAYLOAD_FORMAT_SOMEIP", upayload_format_someip)
    ∷ ("UPAYLOAD_FORMAT_SOMEIP_TLV", upayload_format_someip_tlv)
    ∷ ("UPAYLOAD_FORMAT_RAW", upayload_format_raw)
    ∷ ("UPAYLOAD_FORMAT_TEXT", upayload_format_text)
    ∷ ("UPAYLOAD_FORMAT_SHM", upayload_format_shm)
    ∷ []

-- `UPayloadFormat::from_str_name`
unfoldable pub u_payload_format_from_name : String → Option UPayloadFormat
u_payload_format_from_name value = match_name value u_payload_format_arms

pub data ChecksumType : Type 0 where
  unspecified : ChecksumType
  md5 : ChecksumType
  sha1 : ChecksumType

-- The discriminants of `ChecksumType`.
unfoldable pub checksum_type_value : ChecksumType → ℕ
checksum_type_value unspecified = 0
checksum_type_value md5 = 1
checksum_type_value sha1 = 2

-- `ChecksumType::as_str_name`
unfoldable pub checksum_type_name : ChecksumType → String
checksum_type_name unspecified = "CHECKSUM_TYPE_UNSPECIFIED"
checksum_type_name md5 = "CHECKSUM_TYPE_MD5"
checksum_type_name sha1 = "CHECKSUM_TYPE_SHA1"

-- The arms of `ChecksumType::from_str_name`, in their order.
abbrev pub checksum_type_arms : List (String × ChecksumType)
checksum_type_arms =
    ("CHECKSUM_TYPE_UNSPECIFIED", unspecified)
    ∷ ("CHECKSUM_TYPE_MD5", md5)
    ∷ ("CHECKSUM_TYPE_SHA1", sha1)
    ∷ []

-- `ChecksumType::from_str_name`
unfoldable pub checksum_type_from_name : String → Option ChecksumType
checksum_type_from_name value = match_name value checksum_type_arms
