-- ===== src/Common/JsonLines.antt =====
-- What the JSONL stores rely on: `serde_json`, which writes a value on a line and reads it back,
-- and the test for blank lines. Neither is in this repository.
use mathlib.Core.Path.{◌≡◌}
use mathlib.Core.Bool.{Bool, false}
use mathlib.Core.Option.{Option, some}

pub record JsonLines (A : Type 0) : Type 1 where
  pub Line : Type 0
  -- `serde_json::to_string`
  pub encode : A → Line
  -- `serde_json::from_str`
  pub decode : Line → Option A
  -- `line.trim().is_empty()`
  pub is_blank : Line → Bool
  pub decode-encode : (a : A) → decode (encode a) ≡ some a
  pub encode-is_blank : (a : A) → is_blank (encode a) ≡ false
