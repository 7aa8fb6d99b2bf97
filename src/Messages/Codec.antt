-- ===== src/Messages/Codec.antt =====
-- What the converters call and do not implement: serde_json's parser and printer, and base64.
use hey_proxy.Base.{ℕ, String, Option, List}
use hey_proxy.Json.{Value}

pub record Codec : Type 0 where
  -- `serde_json::to_vec` and `serde_json::from_slice` of a list of values
  pub to_vec : List Value → List ℕ
  pub from_slice : List ℕ → Option (List Value)
  -- `STANDARD.encode` and `STANDARD.decode`
  pub encode : List ℕ → String
  pub decode : String → Option (List ℕ)
  -- `serde_json::from_str`
  pub from_str : String → Option Value
  -- `value.to_string().len()`
  pub printed_len : Value → ℕ
