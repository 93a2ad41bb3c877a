-- ===== src/Platform.antt =====
-- What the code takes from encoding/json, crypto/sha256 and the Unicode tables: parameters of the
-- model, with no assumption about them.
use ai4se_coding_agent_harne.Prelude.{ℕ, String, Option, List}
use ai4se_coding_agent_harne.Domain.{Action, PermissionProfile}
use ai4se_coding_agent_harne.Json.{Json}
use ai4se_coding_agent_harne.Text.{Unicode}

-- The struct that `policy.Digest` encodes.
pub record DigestRequest : Type 0 where
  pub run_id : String
  pub profile : PermissionProfile
  pub action : Action
  pub baselines : List (String × String)

pub record Platform : Type 0 where
  pub unicode : Unicode
  -- `json.Unmarshal` into `any`; `none` is an error.
  pub unmarshal : String → Option Json
  -- `json.Marshal` of such a value, and the bytes of the digest's struct (none where that fails).
  pub marshal : Json → Option String
  pub marshal_request : DigestRequest → List ℕ
  -- SHA-256 of bytes, in hexadecimal.
  pub sha256_hex : List ℕ → String
