-- ===== src/Runtime.antt =====
-- What the program takes from the interpreter and from hashlib, hmac and json, as parameters.
-- `Bytes` are request bodies and encoded JSON texts.
use enterprise_multi_agent_s.Prelude.{String, ◌≡◌, Option, some}
use enterprise_multi_agent_s.Python.Json.{Json, sort_keys}

pub record Runtime (Bytes : Type 0) : Type 0 where
  -- the text that str() gives for a list or a dictionary
  pub repr : Json → String
  -- json.dumps(v, separators=(",", ":"), sort_keys=True)
  pub dumps : Json → Bytes
  -- json.loads(b); none for JSONDecodeError and UnicodeDecodeError
  pub loads : Bytes → Option Json
  -- hashlib.sha256(b).hexdigest()
  pub sha256 : Bytes → String
  -- hmac.new(key, message, hashlib.sha256).hexdigest()
  pub hmac_sha256 : Bytes → Bytes → String
  -- s.encode("utf-8"), and b + c on bytes
  pub encode : String → Bytes
  pub concat : Bytes → Bytes → Bytes

-- The documented behaviour of json: what dumps writes is read back with its keys in order.
pub record IsRuntime {Bytes : Type 0} (rt : Runtime Bytes) : Type 0 where
  pub loads-dumps : (v : Json) → rt.loads (rt.dumps v) ≡ some (sort_keys v)
