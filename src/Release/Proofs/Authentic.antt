-- ===== src/Release/Proofs/Authentic.antt =====
-- `_async_resolve_release`: what a resolution that returns has verified.
use ha_paneld_home_assistant.Prelude.{
  ℕ, ◌≡◌, refl, ap, subst, some_eq, Bool, true, false, Option, none, some, Text, if◌then◌else◌,
  is_some,
}
use ha_paneld_home_assistant.Web.{Web, Url}
use ha_paneld_home_assistant.Release.Session.{Session, Fetching, pure, lift, ◌>>=◌, continue}
use ha_paneld_home_assistant.Release.Artifact.{InstallDescriptor, SignedReleaseMetadata}
use ha_paneld_home_assistant.Release.Descriptor.{
  parse_checksum_record, verify_detached_signature, parse_install_descriptor,
}
use ha_paneld_home_assistant.Release.Metadata.{
  Assets, asset, descriptor_name, parse_release_metadata,
}
use ha_paneld_home_assistant.Release.Resolve.{
  Resolved, resolved, signed_metadata_of, fetch_signed, fetch_described, fetch_descriptor,
  async_resolve_release,
}

-- Whatever the step brings satisfies `Q`, in every session.
abbrev Yields : {A : Type 0} → (A → Type 0) → Fetching A → Type 0
Yields {A = A} Q m = (s : Session) (a : A) → (m s).0 ≡ some a → Q a

module _ {A : Type 0} (Q : A → Type 0) where
  Yields-lift : (o : Option A) → ((a : A) → o ≡ some a → Q a) → Yields Q (lift o)
  unfolding lift
  Yields-lift o q s a h = q a h

  Yields-pure : (a : A) → Q a → Yields Q (pure a)
  unfolding pure
  Yields-pure a q s b h = subst Q (some_eq h) q

  Yields-if :
      (b : Bool) (x y : Fetching A)
      → (b ≡ true → Yields Q x)
      → (b ≡ false → Yields Q y)
      → Yields Q (if b then x else y)
  Yields-if true x y hx hy = hx refl
  Yields-if false x y hx hy = hy refl

  Yields-bind :
      {R : Type 0} (P : R → Type 0) (m : Fetching R) (f : R → Fetching A)
      → Yields P m
      → ((r : R) → P r → Yields Q (f r))
      → Yields Q (m >>= f)
  unfolding ◌>>=◌
  Yields-bind {R = R} P m f hm hf s b h = continued_at (m s) refl h
    where
      continued_at : (r : Option R × Session) → m s ≡ r → (continue f r).0 ≡ some b → Q b
      continued_at (some x, t) e h' = hf x (hm s x (ap (λ q. q.0) e)) t b h'
      continued_at (none, t) e h' = cc

  Yields-after :
      {R : Type 0} (m : Fetching R) (f : R → Fetching A)
      → ((r : R) → Yields Q (f r))
      → Yields Q (m >>= f)
  Yields-after m f hf = Yields-bind (λ r. Unit) m f (λ s r h. tt) λ r u. hf r

-- The detached signature of the body by the release key is right.
abbrev pub IsVerified : Web → Text × Text → Type 0
IsVerified w (body, signature) = verify_detached_signature w body signature ≡ some tt

-- A descriptor comes from verified bytes, for the tag, the file and its digest; there is none only
-- where the release has none.
abbrev pub IsDescribed :
    Web
    → Text
    → Text
    → Text
    → Text × Text
    → Assets
    → Option (InstallDescriptor × SignedReleaseMetadata)
    → Type 0
IsDescribed w tag apk_name sha256 signed assets none =
    is_some (asset (descriptor_name tag) assets) ≡ false
IsDescribed w tag apk_name sha256 signed assets (some (descriptor, metadata)) =
    (described : Text × Text) × IsVerified w described
    × (parse_install_descriptor w described.0 tag apk_name sha256 ≡ some descriptor)
    × (metadata ≡ signed_metadata_of signed described)

-- What has been verified before a resolution returns.
pub record IsAuthentic (w : Web) (expected : Option Text) (r : Resolved) : Type 0 where
  pub release_body : Text
  pub tag : Text
  pub apk_name : Text
  pub assets : Assets
  pub signed : Text × Text
  pub sha256 : Text
  pub apk_url : Url
  pub described : Option (InstallDescriptor × SignedReleaseMetadata)
  pub selected : parse_release_metadata w release_body expected ≡ some (tag, apk_name, assets)
  pub verified : IsVerified w signed
  pub recorded : parse_checksum_record signed.0 apk_name ≡ some sha256
  pub located : asset apk_name assets ≡ some apk_url
  pub descriptor_verified : IsDescribed w tag apk_name sha256 signed assets described
  pub outcome : r ≡ resolved tag apk_name apk_url sha256 described

module _ (w : Web) where
  signed-IsVerified :
      (name : Text) (maximum : ℕ) (assets : Assets)
      → Yields (IsVerified w) (fetch_signed w name maximum assets)
  unfolding fetch_signed
  signed-IsVerified name maximum assets = Yields-after _ _ _ λ url. Yields-after _ _ _ λ body.
      Yields-after _ _ _ λ signature_url. Yields-after _ _ _ λ signature.
        Yields-bind _ (λ u. IsVerified w (body, signature)) _ _ (Yields-lift _ _ λ u e. e)
          λ u verified. Yields-pure _ _ verified

  descriptor-IsDescribed :
      (tag apk_name sha256 : Text) (signed : Text × Text) (assets : Assets)
      → Yields
          (IsDescribed w tag apk_name sha256 signed assets)
          (fetch_descriptor w tag apk_name sha256 signed assets)
  unfolding fetch_descriptor fetch_described
  descriptor-IsDescribed tag apk_name sha256 signed assets =
      Yields-if _ (is_some (asset (descriptor_name tag) assets)) _ _
        (λ here.
          Yields-bind _ (IsVerified w) _ _ (signed-IsVerified _ _ assets) λ described verified.
            Yields-bind _ (λ d. parse_install_descriptor w described.0 tag apk_name sha256 ≡ some d)
              _ _ (Yields-lift _ _ λ d e. e)
              λ d parsed. Yields-pure _ _ (described, verified, parsed, refl))
        (λ gone. Yields-pure _ _ gone)

  resolve-Yields :
      (url : Url) (expected : Option Text)
      → Yields (IsAuthentic w expected) (async_resolve_release w url expected)
  unfolding async_resolve_release
  resolve-Yields url expected = Yields-after _ _ _ λ release_body.
      Yields-bind _ (λ r. parse_release_metadata w release_body expected ≡ some r) _ _
        (Yields-lift _ _ λ r e. e)
        λ (tag, apk_name, assets) selected.
          Yields-bind _ (IsVerified w) _ _ (signed-IsVerified _ _ assets) λ signed verified.
            Yields-bind _ (λ d. parse_checksum_record signed.0 apk_name ≡ some d) _ _
              (Yields-lift _ _ λ d e. e)
              λ sha256 recorded.
                Yields-bind _ (IsDescribed w tag apk_name sha256 signed assets) _ _
                  (descriptor-IsDescribed tag apk_name sha256 signed assets)
                  λ described descriptor_verified.
                    Yields-bind _ (λ u. asset apk_name assets ≡ some u) _ _
                      (Yields-lift _ _ λ u e. e)
                      λ apk_url located. Yields-pure _ _ (record {
                        release_body = release_body;
                        tag = tag;
                        apk_name = apk_name;
                        assets = assets;
                        signed = signed;
                        sha256 = sha256;
                        apk_url = apk_url;
                        described = described;
                        selected = selected;
                        verified = verified;
                        recorded = recorded;
                        located = located;
                        descriptor_verified = descriptor_verified;
                        outcome = refl;
                      })

  -- Whatever the replies were, a resolution that returns has read the tag, the file name and the
  -- assets from a release that its channel or the expected tag selects, has verified the signature
  -- of the checksum from which the digest comes, and takes a descriptor only from bytes whose
  -- signature it has verified, for that tag, file name and digest.
  pub async_resolve_release-IsAuthentic :
      (url : Url) (expected : Option Text) (s : Session) (r : Resolved)
      → (async_resolve_release w url expected s).0 ≡ some r
      → IsAuthentic w expected r
  async_resolve_release-IsAuthentic url expected s r h = resolve-Yields url expected s r h
