-- ===== src/Json.antt =====
-- What the code asks of encoding/json. It is a parameter of the model: an object is its members,
-- each key with the raw text of its value.
use go_es_light.Base.{Bytes, Map, Result, List}

pub record Json : Type 0 where
  -- json.Unmarshal into a map[string]json.RawMessage, and json.Marshal of one
  pub decode_object : Bytes → Result (Map Bytes Bytes)
  pub encode_object : Map Bytes Bytes → Result Bytes
  -- the same for a string
  pub decode_string : Bytes → Result Bytes
  pub encode_string : Bytes → Result Bytes
  -- the same for a map[string][]string, in which only the bucket "payload" is used
  pub decode_manifest : Bytes → Result (List Bytes)
  pub encode_manifest : List Bytes → Result Bytes

-- The events of a domain as JSON: json.Marshal of an event, json.Unmarshal into a fresh instance
-- of its type, and its EventName.
pub record Codec (E : Type 0) : Type 0 where
  pub marshal : E → Result Bytes
  pub unmarshal : Bytes → E → Result E
  pub event_name : E → Bytes
