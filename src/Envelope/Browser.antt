-- ===== src/Envelope/Browser.antt =====
-- What web/features/player/runtime/envelope.ts uses of the browser: the URL parser, and the size of
-- a value's JSON text.
use retrom.Prelude.{ℕ, Option}
use retrom.Text.{Text}
use retrom.Value.{Value}

pub record Url : Type 0 where
  pub protocol : Text
  pub origin : Text
  pub hash : Text
  pub pathname : Text

-- `none` is an exception.
pub record Platform : Type 0 where
  -- `new URL(text)`
  pub new_url : Text → Option Url
  -- `new URL(text, base)`
  pub new_url_under : Text → Text → Option Url
  -- `new TextEncoder().encode(JSON.stringify(value)).byteLength`
  pub json_bytes : Value → Option ℕ
