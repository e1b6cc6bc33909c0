-- ===== src/Release/Proofs/Requests.antt =====
-- `_async_resolve_release`: what a resolution asks for, and how often.
use ha_paneld_home_assistant.Prelude.{
  ℕ, ◌+◌, ◌≤◌, ◌≡◌, refl, ◌⊎◌, inl, inr, Bool, true, false, Option, none, some, List, [], length,
  arith, All, Text, if◌then◌else◌, is_some,
}
use ha_paneld_home_assistant.Web.{Web, Url, Reply}
use ha_paneld_home_assistant.Release.Session.{Session, Fetching, pure, lift, ◌>>=◌, continue}
use ha_paneld_home_assistant.Release.Fetch.{is_trusted_download_url, async_fetch_bounded}
use ha_paneld_home_assistant.Release.Artifact.{InstallDescriptor, SignedReleaseMetadata}
use ha_paneld_home_assistant.Release.Metadata.{Assets, asset, descriptor_name}
use ha_paneld_home_assistant.Release.Resolve.{
  fetch_signed, fetch_described, fetch_descriptor, async_resolve_release,
}
use ha_paneld_home_assistant.Release.Proofs.Fetching.{requests, fetch_loop-IsBounded}

-- What a step adds to the URLs that were asked for.
abbrev After : (Url → Type 0) → ℕ → List Url → Session → Type 0
After P n asked s = All P s.asked × (length s.asked ≤ length asked + n)

abbrev pub Costs : {A : Type 0} → (Url → Type 0) → ℕ → Fetching A → Type 0
Costs P n m = (s : Session) → All P s.asked → After P n s.asked (m s).1

module _ (P : Url → Type 0) where
  Costs-lift : {A : Type 0} (o : Option A) → Costs P 0 (lift o)
  unfolding lift
  Costs-lift o s all = (all, omega arith)

  Costs-pure : {A : Type 0} (a : A) → Costs P 0 (pure a)
  unfolding pure
  Costs-pure a s all = (all, omega arith)

  continued :
      {A B : Type 0} (f : A → Fetching B) (k n : ℕ) (asked : List Url) (r : Option A × Session)
      → ((a : A) → Costs P n (f a))
      → After P k asked r.1
      → After P (k + n) asked (continue f r).1
  continued f k n asked (none, s) h first = (first.0, omega (arith, first.1))
  continued f k n asked (some a, s) h first =
      let (all, few) = h a s first.0 in (all, omega (arith, first.1, few))

  Costs-bind :
      {A B : Type 0} (k n : ℕ) (m : Fetching A) (f : A → Fetching B)
      → Costs P k m
      → ((a : A) → Costs P n (f a))
      → Costs P (k + n) (m >>= f)
  unfolding ◌>>=◌
  Costs-bind k n m f first next s all = continued f k n s.asked (m s) next (first s all)

  Costs-if :
      {A : Type 0} (n : ℕ) (b : Bool) (x y : Fetching A)
      → Costs P n x
      → Costs P n y
      → Costs P n (if b then x else y)
  Costs-if n true x y hx hy = hx
  Costs-if n false x y hx hy = hy

  Costs-weaken : {A : Type 0} (k n : ℕ) (m : Fetching A) → k ≤ n → Costs P k m → Costs P n m
  Costs-weaken k n m le h s all = ((h s all).0, omega (arith, (h s all).1))

  module _ (w : Web) (fit : (u : Url) → is_trusted_download_url u ≡ true → P u) where
    fetch-Costs :
        (url : Url) (maximum : ℕ) (allowed : Bool)
        → (allowed ≡ false → P url)
        → Costs P (requests allowed 0) (async_fetch_bounded w url maximum allowed)
    unfolding async_fetch_bounded
    fetch-Costs url maximum allowed mine s all =
        let bounded =
          fetch_loop-IsBounded w P fit allowed maximum 0 url s.replies s.asked mine (omega arith)
            all in
        (bounded.known, bounded.few)

    signed-Costs :
        (name : Text) (maximum : ℕ) (assets : Assets)
        → Costs P 8 (fetch_signed w name maximum assets)
    unfolding fetch_signed
    signed-Costs name maximum assets = Costs-bind 0 8 _ _ (Costs-lift _) λ url.
        Costs-bind 4 4 _ _ (fetch-Costs url maximum true (λ e. cc)) λ body.
          Costs-bind 0 4 _ _ (Costs-lift _) λ signature_url.
            Costs-bind 4 0 _ _ (fetch-Costs signature_url _ true (λ e. cc))
              λ signature. Costs-bind 0 0 _ _ (Costs-lift _) λ verified. Costs-pure _

    described-Costs :
        (tag apk_name sha256 : Text) (signed : Text × Text) (assets : Assets)
        → Costs P 8 (fetch_descriptor w tag apk_name sha256 signed assets)
    unfolding fetch_descriptor fetch_described
    described-Costs tag apk_name sha256 signed assets =
        Costs-if 8 (is_some (asset (descriptor_name tag) assets)) _ _
          (Costs-bind 8 0 _ _ (signed-Costs _ _ assets)
            λ described. Costs-bind 0 0 _ _ (Costs-lift _) λ descriptor. Costs-pure _)
          (Costs-weaken 0 8 (pure {A = Option (InstallDescriptor × SignedReleaseMetadata)} none)
            (omega arith) (Costs-pure _))

    resolve-Costs :
        (url : Url) (expected : Option Text)
        → P url
        → Costs P 17 (async_resolve_release w url expected)
    unfolding async_resolve_release
    resolve-Costs url expected mine =
        Costs-bind 1 16 _ _ (fetch-Costs url _ false (λ e. mine)) λ release_body.
          Costs-bind 0 16 _ _ (Costs-lift _) λ (tag, apk_name, assets).
            Costs-bind 8 8 _ _ (signed-Costs _ _ assets) λ signed.
              Costs-bind 0 8 _ _ (Costs-lift _) λ sha256.
                Costs-bind 8 0 _ _ (described-Costs tag apk_name sha256 signed assets)
                  λ described. Costs-bind 0 0 _ _ (Costs-lift _) λ apk_url. Costs-pure _

-- However many replies come, a resolution sends at most seventeen requests, and asks for no URL but
-- the one that it was given and HTTPS URLs on the two trusted hosts.
pub async_resolve_release-few :
    (w : Web) (url : Url) (expected : Option Text) (replies : List Reply)
    → All
        (λ u. (u ≡ url) ⊎ (is_trusted_download_url u ≡ true))
        (async_resolve_release w url expected (record { replies = replies; asked = [] })).1.asked
      × (length
            (async_resolve_release w url expected
              (record { replies = replies; asked = [] })).1.asked
          ≤ 17)
async_resolve_release-few w url expected replies =
    resolve-Costs (λ u. (u ≡ url) ⊎ (is_trusted_download_url u ≡ true)) w (λ u trusted. inr trusted)
      url expected (inl refl) (record { replies = replies; asked = [] }) tt
