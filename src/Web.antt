-- ===== src/Web.antt =====
-- What the downloads use and the integration does not implement: `yarl.URL`, the HTTP session, the
-- RSA check and JSON as `json.loads` and `json.dumps` treat it with the options of
-- custom_components/panel_assistant/release.py.
use ha_paneld_home_assistant.Prelude.{ℕ, Bool, Option, List, Text}
use ha_paneld_home_assistant.Value.{Value}

-- A `yarl.URL` by its attributes; `text` is `str(url)`, by which URLs are compared.
pub record Url : Type 0 where
  pub text : Text
  pub scheme : Text
  pub user : Option Text
  pub password : Option Text
  pub host : Option Text
  pub port : Option ℕ
  pub path : Text
  pub query_string : Text
  pub fragment : Text

-- What `session.get` brings: the attributes of the response, and the chunks of its body.
pub record Response : Type 0 where
  pub has_history : Bool
  pub url : Url
  pub status : ℕ
  pub locations : List Text
  pub content_length : Option ℕ
  pub chunks : List Text

-- The end of one request: `broken` is a `ClientError`, a timeout or a `ValueError`.
pub data Reply : Type 0 where
  broken : Reply
  answered : Response → Reply

pub record Web : Type 0 where
  -- `URL(text)`, `none` where it raises, and `url.join(other)`.
  pub url_of : Text → Option Url
  pub url_join : Url → Url → Url
  -- `url.with_name(f"{url.name}.sig")`.
  pub with_signature_name : Url → Url
  -- `json.loads` of UTF-8 bytes that refuses the constants NaN and Infinity, before the pairs hook.
  pub loads_strict : Text → Option Value
  -- `json.dumps` with sorted keys, no spaces, ASCII only and no NaN, as bytes; `none` where it raises.
  pub dumps_canonical : Value → Option Text
  -- Whether the PKCS #1 signature of the bytes by the release key is right.
  pub rsa_verify : Text → Text → Bool
