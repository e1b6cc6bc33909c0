-- ===== src/BuildFeed/Downloaded.antt =====
-- `async_download_build` of custom_components/panel_assistant/build_feed.py: which downloads succeed.
use mathlib.Core.List.{append_assoc, append-nil}
use ha_paneld_home_assistant.Prelude.{
  ℕ, ◌≤◌, ◌≡◌, ◌↔◌, refl, sym, ap, subst, ◌∙◌, true, ◌&&◌, Option, none, some, some_eq, List, [],
  ◌∷◌, ◌++◌, arith, leb, le→leb, ◌==◌, ==_iff, length, length-append, Text, text_eq, text_eq_iff,
  and-eq-true, check-bind-eq-some, >>=-eq-some,
}
use ha_paneld_home_assistant.Platform.{Platform}
use ha_paneld_home_assistant.Web.{Response, Reply, broken, answered}
use ha_paneld_home_assistant.BuildFeed.Build.{FeedBuild}
use ha_paneld_home_assistant.BuildFeed.Download.{announced, receive, async_download_build}

abbrev pub joined : List Text → Text
joined [] = []
joined (chunk ∷ chunks) = chunk ++ joined chunks

-- A reply with the whole of the build: the right status and URL, a length that is not announced or
-- the right one, and chunks that make a body of the signed size and digest.
pub record IsWhole (p : Platform) (b : FeedBuild) (response : Response) (body : Text) : Type 0 where
  pub status : response.status ≡ 200
  pub url : response.url.text ≡ b.apk_url.text
  pub length_told : (n : ℕ) → response.content_length ≡ some n → n ≡ b.apk_size
  pub received : joined response.chunks ≡ body
  pub size : length body ≡ b.apk_size
  pub digest : p.sha256_hex body ≡ b.apk_sha256

abbrev pub Delivers : Platform → FeedBuild → Reply → Text → Type 0
Delivers p b broken body = ⊥
Delivers p b (answered response) body = IsWhole p b response body

-- What was read and hashed is all that came.
receive-joined :
    (size : ℕ) (body digest : Text) (chunks : List Text) (x y : Text)
    → receive size body digest chunks ≡ some (x, y)
    → (x ≡ body ++ joined chunks) × (y ≡ digest ++ joined chunks)
unfolding receive
receive-joined size body digest [] x y h = (
  ap (λ (o : Text × Text). o.0) (sym (some_eq h)) ∙ sym (append-nil body),
  ap (λ (o : Text × Text). o.1) (sym (some_eq h)) ∙ sym (append-nil digest),
)
receive-joined size body digest (chunk ∷ chunks) x y h =
    let (fits, rest) = check-bind-eq-some (leb (length (body ++ chunk)) size) _ h in
    let (read, hashed) = receive-joined size (body ++ chunk) (digest ++ chunk) chunks x y rest in
    (
      read ∙ append_assoc body chunk (joined chunks),
      hashed ∙ append_assoc digest chunk (joined chunks),
    )

receive-some :
    (size : ℕ) (body digest : Text) (chunks : List Text)
    → length (body ++ joined chunks) ≤ size
    → receive size body digest chunks ≡ some (body ++ joined chunks, digest ++ joined chunks)
unfolding receive
receive-some size body digest [] fits = rw (append-nil body, append-nil digest)
receive-some size body digest (chunk ∷ chunks) fits =
    let all = append_assoc body chunk (joined chunks) in
    let fits_now : length (body ++ chunk) ≤ size = omega (
      arith,
      fits,
      length-append body (chunk ++ joined chunks),
      length-append chunk (joined chunks),
      length-append body chunk,
    ) in
    rw (
      le→leb _ _ fits_now,
      receive-some size (body ++ chunk) (digest ++ chunk) chunks
          (subst (λ (t : Text). length t ≤ size) (sym all) fits),
      all,
      append_assoc digest chunk (joined chunks),
    )

announced_iff :
    (size : ℕ) (o : Option ℕ) → (announced size o ≡ true) ↔ ((n : ℕ) → o ≡ some n → n ≡ size)
unfolding announced
announced_iff size none = ((λ h n e. cc), λ h. refl)
announced_iff size (some m) =
    ((λ h n e. sym (some_eq e) ∙ (==_iff m size).0 h), λ h. (==_iff m size).1 (h m refl))

module _ (p : Platform) (b : FeedBuild) (body : Text) where
  succeeds-IsWhole :
      (response : Response)
      → async_download_build p b (answered response) ≡ some body
      → IsWhole p b response body
  unfolding async_download_build
  succeeds-IsWhole response h =
      let (found, h1) =
        check-bind-eq-some (response.status == 200 && text_eq response.url.text b.apk_url.text) _
          h in
      let (told, h2) = check-bind-eq-some (announced b.apk_size response.content_length) _ h1 in
      let ((x, y), read, h3) = >>=-eq-some (receive b.apk_size [] [] response.chunks) _ h2 in
      let (same, h4) =
        check-bind-eq-some (length x == b.apk_size && text_eq (p.sha256_hex y) b.apk_sha256) _ h3 in
      let (all, hashed) = receive-joined b.apk_size [] [] response.chunks x y read in
      let (status, url) = and-eq-true _ _ found in
      let (size, digest) = and-eq-true _ _ same in
      let is_body : x ≡ body = some_eq h4 in
      record {
        status = (==_iff _ _).0 status;
        url = (text_eq_iff _ _).0 url;
        length_told = (announced_iff b.apk_size response.content_length).0 told;
        received = sym all ∙ is_body;
        size = ap length (sym is_body) ∙ (==_iff _ _).0 size;
        digest = ap p.sha256_hex (sym is_body ∙ (all ∙ sym hashed)) ∙ (text_eq_iff _ _).0 digest;
      }

  IsWhole-succeeds :
      (response : Response)
      → IsWhole p b response body
      → async_download_build p b (answered response) ≡ some body
  unfolding async_download_build
  IsWhole-succeeds response w =
      let fits : length (joined response.chunks) ≤ b.apk_size =
        omega (arith, ap length w.received, w.size) in
      rw (
        (==_iff _ _).1 w.status,
        (text_eq_iff _ _).1 w.url,
        (announced_iff b.apk_size response.content_length).1 w.length_told,
        receive-some b.apk_size [] [] response.chunks fits,
        w.received,
        (==_iff _ _).1 w.size,
        (text_eq_iff _ _).1 w.digest,
      )

-- A download succeeds with a body exactly if the reply has status 200 and the URL of the build,
-- announces no length but the signed one, and its chunks, however the reply was cut, make up the body,
-- which has the signed size and digest.
pub async_download_build-Delivers :
    (p : Platform) (b : FeedBuild) (reply : Reply) (body : Text)
    → (async_download_build p b reply ≡ some body) ↔ Delivers p b reply body
unfolding async_download_build
async_download_build-Delivers p b broken body = ((λ h. cc), λ h. absurd h)
async_download_build-Delivers p b (answered response) body =
    (succeeds-IsWhole p b body response, IsWhole-succeeds p b body response)
