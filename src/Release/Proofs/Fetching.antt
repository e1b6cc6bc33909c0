-- ===== src/Release/Proofs/Fetching.antt =====
-- `_async_fetch_bounded`: what a bounded fetch may bring, and what it may ask for.
use ha_paneld_home_assistant.Prelude.{
  ℕ, zero, suc, ◌+◌, ◌-◌, ◌≤◌, ◌≡◌, refl, Bool, true, false, ◌&&◌, not, Option, none, some, List,
  [], ◌∷◌, ◌++◌, leb, length, arith, All, Bool-cases, inl, inr, leb→le, check-bind-eq-some, ◌==◌,
  Text,
}
use ha_paneld_home_assistant.Web.{Web, Url, Response, Reply, broken, answered}
use ha_paneld_home_assistant.Release.Session.{Session}
use ha_paneld_home_assistant.Release.Fetch.{
  max_redirects, is_trusted_download_url, read_chunks, Next, done, follow, read_response,
  length_allowed, followed, redirected, take_reply, fetch_loop, async_fetch_bounded,
}

read_chunks-bounds :
    (maximum : ℕ) (body : Text) (chunks : List Text) {r : Text}
    → length body ≤ maximum
    → read_chunks maximum body chunks ≡ some r
    → length r ≤ maximum
unfolding read_chunks
read_chunks-bounds maximum body [] small h = ground arith
read_chunks-bounds maximum body (chunk ∷ chunks) small h =
    let (fits, rest) = check-bind-eq-some (leb (length (body ++ chunk)) maximum) _ h in
    read_chunks-bounds maximum (body ++ chunk) chunks (leb→le _ _ fits) rest

read_response-bounds :
    (maximum : ℕ) (response : Response) {r : Text}
    → read_response maximum response ≡ some r
    → length r ≤ maximum
unfolding read_response
read_response-bounds maximum response h =
    let (fine, h1) = check-bind-eq-some (response.status == 200) _ h in
    let (fits, h2) = check-bind-eq-some (length_allowed maximum response.content_length) _ h1 in
    read_chunks-bounds maximum [] response.chunks (omega arith) h2

-- What one reply may lead to.
abbrev Sound : Bool → ℕ → ℕ → Next → Type 0
Sound allowed maximum redirects (done body) = (r : Text) → body ≡ some r → length r ≤ maximum
Sound allowed maximum redirects (follow url) =
    (allowed ≡ true) × (is_trusted_download_url url ≡ true) × (suc redirects ≤ max_redirects)

followed-Sound :
    (allowed : Bool) (maximum redirects : ℕ) (url : Option Url)
    → allowed ≡ true
    → suc redirects ≤ max_redirects
    → Sound allowed maximum redirects (followed url)
unfolding followed
followed-Sound allowed maximum redirects none a few = λ r e. cc
followed-Sound allowed maximum redirects (some url) a few =
    elim (Bool-cases (is_trusted_download_url url)) [
      | inl trusted ↦ rw trusted (a, trusted, few)
      | inr untrusted ↦ rw untrusted (λ r e. cc)
    ]

take_reply-Sound :
    (w : Web) (allowed : Bool) (maximum redirects : ℕ) (url : Url) (reply : Reply)
    → Sound allowed maximum redirects (take_reply w allowed maximum redirects url reply)
unfolding take_reply
take_reply-Sound w allowed maximum redirects url broken = λ r e. cc
take_reply-Sound w allowed maximum redirects url (answered response) = ground (
  arith,
  read_response-bounds maximum response,
  followed-Sound allowed maximum redirects (redirected w url response),
)

-- How many requests may still be sent.
abbrev pub requests : Bool → ℕ → ℕ
requests true redirects = suc max_redirects - redirects
requests false redirects = 1

-- What a fetch has done: a body within the limit, requests that satisfy `P` only, and no more of
-- them than allowed.
pub record IsBounded (P : Url → Type 0) (maximum count : ℕ) (asked : List Url)
    (r : Option Text × Session) : Type 0 where
  pub small : (body : Text) → r.0 ≡ some body → length body ≤ maximum
  pub known : All P r.1.asked
  pub few : length r.1.asked ≤ length asked + count

module _ (w : Web) (P : Url → Type 0)
    (fit : (u : Url) → is_trusted_download_url u ≡ true → P u) where
  first_asked :
      (allowed : Bool) (url : Url)
      → (allowed ≡ false → P url)
      → (allowed && not (is_trusted_download_url url)) ≡ false
      → P url
  first_asked false url mine h = mine refl
  first_asked true url mine h = fit url (ground arith)

  one_more :
      (allowed : Bool) (redirects : ℕ)
      → redirects ≤ max_redirects
      → suc zero ≤ requests allowed redirects
  one_more true redirects few = omega arith
  one_more false redirects few = omega arith

  one_less :
      (allowed : Bool) (redirects : ℕ)
      → allowed ≡ true
      → suc redirects ≤ max_redirects
      → suc (requests allowed (suc redirects)) ≤ requests allowed redirects
  one_less true redirects a few = omega arith
  one_less false redirects a few = cc

  pub fetch_loop-IsBounded :
      (allowed : Bool) (maximum redirects : ℕ) (url : Url) (replies : List Reply) (asked : List Url)
      → (allowed ≡ false → P url)
      → redirects ≤ max_redirects
      → All P asked
      → IsBounded P maximum
          (requests allowed redirects)
          asked
          (fetch_loop w allowed maximum redirects url replies asked)
  unfolding fetch_loop
  fetch_loop-IsBounded allowed maximum redirects url [] asked mine few all =
      elim (Bool-cases (allowed && not (is_trusted_download_url url))) [
        | inl refused ↦ rw refused (record { small = λ r e. cc; known = all; few = omega arith })
        | inr asks ↦ rw asks (record {
          small = λ r e. cc;
          known = (first_asked allowed url mine asks, all);
          few = omega (arith, one_more allowed redirects few);
        })
      ]
  fetch_loop-IsBounded allowed maximum redirects url (reply ∷ replies) asked mine few all =
      elim (Bool-cases (allowed && not (is_trusted_download_url url))) [
        | inl refused ↦ rw refused (record { small = λ r e. cc; known = all; few = omega arith })
        | inr asks ↦
            let known = first_asked allowed url mine asks in
            rw asks (
              elim (take_reply w allowed maximum redirects url reply)
                  as (λ n.
                    Sound allowed maximum redirects n
                    → IsBounded P maximum (requests allowed redirects) asked (elim n [
                      | done body ↦ (body, record { replies = replies; asked = url ∷ asked })
                      | follow next ↦
                          fetch_loop w allowed maximum (suc redirects) next replies (url ∷ asked)
                    ])) [
                      | done body ↦ λ sound. record {
                        small = sound;
                        known = (known, all);
                        few = omega (arith, one_more allowed redirects few);
                      }
                      | follow next ↦ λ (redirecting, trusted, fewer).
                          let rest =
                            fetch_loop-IsBounded allowed maximum (suc redirects) next replies
                              (url ∷ asked) (λ e. fit next trusted) fewer (known, all) in
                          record {
                            small = rest.small;
                            known = rest.known;
                            few =
                                omega
                                  (arith, rest.few, one_less allowed redirects redirecting fewer);
                          }
                    ]
                (take_reply-Sound w allowed maximum redirects url reply))
      ]

-- From a session that has asked for nothing yet, a fetch that may follow the redirects of a release
-- asks only for HTTPS URLs on the two trusted hosts, and brings no body over the limit.
pub async_fetch_bounded-trusted :
    (w : Web) (url : Url) (maximum : ℕ) (replies : List Reply)
    → All
        (λ u. is_trusted_download_url u ≡ true)
        (async_fetch_bounded w url maximum true (record { replies = replies; asked = [] })).1.asked
      × ((body : Text)
          → (async_fetch_bounded w url maximum true (record { replies = replies; asked = [] })).0
            ≡ some body
          → length body ≤ maximum)
unfolding async_fetch_bounded
async_fetch_bounded-trusted w url maximum replies =
    let bounded =
      fetch_loop-IsBounded w (λ u. is_trusted_download_url u ≡ true) (λ u trusted. trusted) true
        maximum 0 url replies [] (λ e. cc) (omega arith) tt in
    (bounded.known, bounded.small)
