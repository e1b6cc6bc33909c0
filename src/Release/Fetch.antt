-- ===== src/Release/Fetch.antt =====
-- `_is_trusted_download_url` and `_async_fetch_bounded` of
-- custom_components/panel_assistant/release.py.
use ha_paneld_home_assistant.Prelude.{
  ℕ, suc, Bool, true, false, ◌&&◌, ◌||◌, not, Option, none, some, List, [], ◌∷◌, ◌++◌, ltb, leb,
  ◌==◌, length, is_none, any, ◌>>=◌, ◌>>◌, check, Text, codes, text_eq, mem_text, is_stripped,
  if◌then◌else◌,
}
use ha_paneld_home_assistant.Web.{Url, Response, Reply, broken, answered, Web}
use ha_paneld_home_assistant.Release.Session.{Session, Fetching}

abbrev pub max_redirects : ℕ
max_redirects = 3

abbrev trusted_download_hosts : List Text
trusted_download_hosts = codes "github.com" ∷ codes "release-assets.githubusercontent.com" ∷ []

abbrev redirect_statuses : List ℕ
redirect_statuses = 301 ∷ 302 ∷ 303 ∷ 307 ∷ 308 ∷ []

host_trusted : Option Text → Bool
unfolding mem_text
host_trusted none = false
host_trusted (some host) = mem_text host trusted_download_hosts

port_is : ℕ → Option ℕ → Bool
port_is n none = false
port_is n (some port) = port == n

unfoldable pub is_trusted_download_url : Url → Bool
unfolding text_eq host_trusted port_is
is_trusted_download_url url =
    text_eq url.scheme (codes "https")
    && (is_none url.user
        && (is_none url.password
            && (host_trusted url.host && (port_is 443 url.port && text_eq url.fragment []))))

-- A location that is not empty, not padded and without control characters.
is_plain_location : Text → Bool
unfolding text_eq is_stripped any
is_plain_location s =
    not (text_eq s []) && (is_stripped s && not (any (λ c. ltb c 32 || (c == 127)) s))

-- `response.headers.getall("Location", ())`, of which there must be one.
only_location : List Text → Option Text
unfolding is_plain_location
only_location (location ∷ []) = if is_plain_location location then some location else none
only_location _ = none

unfoldable pub length_allowed : ℕ → Option ℕ → Bool
length_allowed maximum_bytes none = true
length_allowed maximum_bytes (some n) = leb n maximum_bytes

-- The chunks of a body, added to what has been read; `none` once there is too much.
unfoldable pub read_chunks : ℕ → Text → List Text → Option Text
read_chunks maximum_bytes body [] = some body
read_chunks maximum_bytes body (chunk ∷ chunks) = do
  check (leb (length (body ++ chunk)) maximum_bytes)
  read_chunks maximum_bytes (body ++ chunk) chunks

-- What one response leads to: the whole body or an error, or another request.
pub data Next : Type 0 where
  done : Option Text → Next
  follow : Url → Next

unfoldable pub followed : Option Url → Next
unfolding is_trusted_download_url
followed none = done none
followed (some url) = if is_trusted_download_url url then follow url else done none

-- The body of the request for one URL, by its response.
unfoldable pub read_response : ℕ → Response → Option Text
unfolding length_allowed read_chunks
read_response maximum_bytes response = do
  check (response.status == 200)
  check (length_allowed maximum_bytes response.content_length)
  read_chunks maximum_bytes [] response.chunks

module _ (w : Web) where
  -- The URL that a redirect leads to: `current_url.join(URL(location))`.
  unfoldable pub redirected : Url → Response → Option Url
  unfolding only_location
  redirected current_url response = do
    location ← only_location response.locations
    target ← w.url_of location
    some (w.url_join current_url target)

  unfoldable pub take_reply : Bool → ℕ → ℕ → Url → Reply → Next
  unfolding text_eq any followed redirected read_response
  take_reply allowed maximum_bytes redirects current_url broken = done none
  take_reply allowed maximum_bytes redirects current_url (answered response) =
      if response.has_history || not (text_eq response.url.text current_url.text)
      then done none
      else if any (λ status. response.status == status) redirect_statuses
      then (if not allowed || leb max_redirects redirects
          then done none
          else followed (redirected current_url response))
      else done (read_response maximum_bytes response)

  -- The `while True` loop, once round for each reply.
  unfoldable pub fetch_loop : Bool → ℕ → ℕ → Url → List Reply → List Url → Option Text × Session
  unfolding take_reply is_trusted_download_url
  fetch_loop allowed maximum_bytes redirects url [] asked =
      if allowed && not (is_trusted_download_url url)
      then (none, record { replies = []; asked = asked })
      else (none, record { replies = []; asked = url ∷ asked })
  fetch_loop allowed maximum_bytes redirects url (reply ∷ replies) asked =
      if allowed && not (is_trusted_download_url url)
      then (none, record { replies = reply ∷ replies; asked = asked })
      else elim (take_reply allowed maximum_bytes redirects url reply) [
        | done body ↦ (body, record { replies = replies; asked = url ∷ asked })
        | follow next ↦ fetch_loop allowed maximum_bytes (suc redirects) next replies (url ∷ asked)
      ]

  unfoldable pub async_fetch_bounded : Url → ℕ → Bool → Fetching Text
  unfolding fetch_loop
  async_fetch_bounded url maximum_bytes allow_release_redirects s =
      fetch_loop allow_release_redirects maximum_bytes 0 url s.replies s.asked
