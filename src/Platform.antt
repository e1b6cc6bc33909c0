-- ===== src/Platform.antt =====
-- What the integration calls and does not implement: Python's standard library, the hash, the
-- JSON codec and Home Assistant's ULID helpers. Each is a function of the record `Platform`, which
-- the models take as a parameter.
use ha_paneld_home_assistant.Prelude.{
  ℕ, Bool, true, false, ◌&&◌, Option, none, some, ◌==◌, Text, text_eq,
}
use ha_paneld_home_assistant.Value.{Value}

-- `urllib.parse.urlsplit`, with the attributes that the client reads.
pub record SplitUrl : Type 0 where
  pub hostname : Option Text
  pub port : Option ℕ
  pub username : Option Text
  pub password : Option Text
  pub path : Text
  pub query : Text
  pub fragment : Text

-- `ipaddress.IPv4Address` and `ipaddress.IPv6Address`, by their integers; the latter with its
-- `scope_id`.
pub data IpAddress : Type 0 where
  v4 : ℕ → IpAddress
  v6 : ℕ → Option Text → IpAddress

scope_eq : Option Text → Option Text → Bool
unfolding text_eq
scope_eq none none = true
scope_eq (some s) (some t) = text_eq s t
scope_eq _ _ = false

-- `==` on addresses.
unfoldable pub ip_eq : IpAddress → IpAddress → Bool
unfolding scope_eq
ip_eq (v4 a) (v4 b) = a == b
ip_eq (v6 a s) (v6 b t) = (a == b) && scope_eq s t
ip_eq _ _ = false

-- A `datetime`: whether its zone is `UTC`, and the microseconds since the first year began.
pub record Moment : Type 0 where
  pub is_utc : Bool
  pub micros : ℕ

-- What `lstat` and `fstat` report; `mode` holds the permission bits.
pub record Metadata : Type 0 where
  pub dev : ℕ
  pub ino : ℕ
  pub regular : Bool
  pub mode : ℕ
  pub uid : ℕ
  pub nlink : ℕ
  pub size : ℕ
  pub mtime_ns : ℕ
  pub ctime_ns : ℕ

pub record StoreFile : Type 0 where
  pub metadata : Metadata
  pub body : Text

pub record Platform : Type 0 where
  -- `urlsplit(url)` and its `port`; `none` where one of them raises `ValueError`.
  pub urlsplit : Text → Option SplitUrl
  -- `str.lower`, and `str.isprintable` of one character.
  pub lower : Text → Text
  pub is_printable : ℕ → Bool
  -- `ipaddress.ip_address`, `none` where it raises, and `str` of an address.
  pub ip_address : Text → Option IpAddress
  pub ip_text : IpAddress → Text
  -- Whether `socket.inet_aton` accepts the text.
  pub inet_aton : Text → Bool
  -- `datetime.fromisoformat`, `none` where it raises, and `isoformat(timespec="seconds")`.
  pub fromisoformat : Text → Option Moment
  pub isoformat : Moment → Text
  -- `sha256(…).hexdigest()`.
  pub sha256_hex : Text → Text
  -- `json.dumps` with sorted keys and no spaces, and with an indent of two: ASCII bytes.
  pub dumps_sorted : Value → Text
  pub dumps_indented : Value → Option Text
  -- `json.loads` of UTF-8 bytes, before the pairs hook; `none` where it raises.
  pub loads : Text → Option Value
  -- Home Assistant's `ulid_to_bytes_or_none` and `bytes_to_ulid`.
  pub ulid_to_bytes : Text → Option Text
  pub bytes_to_ulid : Text → Text
  -- `os.geteuid()`, and the file that Home Assistant's `Store` leaves when it has saved a document.
  pub euid : ℕ
  pub store_file : Value → StoreFile
