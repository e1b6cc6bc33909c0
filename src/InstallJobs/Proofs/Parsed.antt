-- ===== src/InstallJobs/Proofs/Parsed.antt =====
-- `_parse_target` and `_parse_artifact` on what `asdict` makes: they change nothing.
use ha_paneld_home_assistant.Prelude.{
  ℕ, ◌≡◌, refl, sym, ap, subst, ◌∙◌, true, List, [], ◌∷◌, some, some_eq, Text, codes, text_eq_iff,
  arith, pos,
}
use ha_paneld_home_assistant.Value.{Value, str, int, arr, Fields, item, is_text, items_are, texts}
use ha_paneld_home_assistant.Platform.{Platform}
use ha_paneld_home_assistant.InstallJobs.Receipt.{InstallTarget, InstallArtifact}
use ha_paneld_home_assistant.InstallJobs.Scalars.{safe_text, integer}
use ha_paneld_home_assistant.InstallJobs.Parse.{
  fields_of, are_supported_abis, supported_abis_list, target_dict, artifact_dict, parse_target,
  parse_artifact,
}
use ha_paneld_home_assistant.InstallJobs.Proofs.Printed.{
  From, Holds, parse_target-IsTarget, parse_artifact-IsArtifact,
}

safe_text-str : (n : ℕ) (s : Text) {x : Text} → safe_text n (str s) ≡ some x → x ≡ s
unfolding safe_text
safe_text-str n s h = ground arith

integer-int : (a b n : ℕ) {x : ℕ} → integer a b (int (pos n)) ≡ some x → x ≡ n
unfolding integer
integer-int a b n h = ground arith

-- The values that a document of known fields gives back.
module _ (known : Fields) where
  from_text :
      (n : ℕ) (key s : Text) {fields : Fields} {x : Text}
      → known ≡ fields
      → item key known ≡ some (str s)
      → From (safe_text n) key fields x
      → x ≡ s
  from_text n key s {x = x} same there (v, found, parsed) =
      let is_str = some_eq (sym found ∙ (ap (item key) (sym same) ∙ there)) in
      safe_text-str n s (subst (λ u. safe_text n u ≡ some x) is_str parsed)

  from_number :
      (a b n : ℕ) (key : Text) {fields : Fields} {x : ℕ}
      → known ≡ fields
      → item key known ≡ some (int (pos n))
      → From (integer a b) key fields x
      → x ≡ n
  from_number a b n key {x = x} same there (v, found, parsed) =
      let is_int = some_eq (sym found ∙ (ap (item key) (sym same) ∙ there)) in
      integer-int a b n (subst (λ u. integer a b u ≡ some x) is_int parsed)

  from_constant :
      (d key s : Text) {fields : Fields}
      → known ≡ fields
      → item key known ≡ some (str s)
      → Holds d key fields
      → s ≡ d
  unfolding is_text
  from_constant d key s same there (v, found, holds) =
      let is_str = some_eq (sym found ∙ (ap (item key) (sym same) ∙ there)) in
      (text_eq_iff s d).0 (subst (λ u. is_text d u ≡ true) is_str holds)

target_ext :
    (a b : InstallTarget)
    → a.address ≡ b.address
    → a.pinned_address ≡ b.pinned_address
    → a.adb_serial ≡ b.adb_serial
    → a.model ≡ b.model
    → a.primary_abi ≡ b.primary_abi
    → a.android_sdk ≡ b.android_sdk
    → a ≡ b
target_ext a b h1 h2 h3 h4 h5 h6 = cc

pub parse_target-same :
    (p : Platform) (t t' : InstallTarget) → parse_target p (target_dict t) ≡ some t' → t' ≡ t
unfolding target_dict fields_of item
parse_target-same p t t' h =
    let i = parse_target-IsTarget p (target_dict t) t' h in
    let same = some_eq i.is_object in
    target_ext t' t (from_text _ _ _ _ same refl i.address)
      (from_text _ _ _ _ same refl i.pinned_address) (from_text _ _ _ _ same refl i.adb_serial)
      (from_text _ _ _ _ same refl i.model) (from_text _ _ _ _ same refl i.primary_abi)
      (from_number _ _ _ _ _ same refl i.android_sdk)

items_are-texts : (ts us : List Text) → items_are ts (texts us) ≡ true → us ≡ ts
unfolding items_are texts is_text
items_are-texts [] [] h = refl
items_are-texts [] (u ∷ us) h = cc
items_are-texts (t ∷ ts) [] h = cc
items_are-texts (t ∷ ts) (u ∷ us) h = ground (arith, text_eq_iff u t, items_are-texts ts us)

artifact_ext :
    (a b : InstallArtifact)
    → a.descriptor_schema ≡ b.descriptor_schema
    → a.release_tag ≡ b.release_tag
    → a.version_name ≡ b.version_name
    → a.version_code ≡ b.version_code
    → a.apk_name ≡ b.apk_name
    → a.apk_sha256 ≡ b.apk_sha256
    → a.apk_size ≡ b.apk_size
    → a.package_id ≡ b.package_id
    → a.signer_certificate_sha256 ≡ b.signer_certificate_sha256
    → a.min_sdk ≡ b.min_sdk
    → a.supported_abis ≡ b.supported_abis
    → a.database_compatibility ≡ b.database_compatibility
    → a.launch_component ≡ b.launch_component
    → a ≡ b
artifact_ext a b h1 h2 h3 h4 h5 h6 h7 h8 h9 h10 h11 h12 h13 = cc

abis_of :
    (abis : List Text) (known fields : Fields)
    → known ≡ fields
    → item (codes "supported_abis") known ≡ some (arr (texts abis))
    → (w : Value) × (item (codes "supported_abis") fields ≡ some w) × (are_supported_abis w ≡ true)
    → abis ≡ supported_abis_list
unfolding are_supported_abis
abis_of abis known fields same there (w, found, fit) =
    let is_abis = some_eq (sym found ∙ (ap (item (codes "supported_abis")) (sym same) ∙ there)) in
    items_are-texts supported_abis_list abis (subst (λ u. are_supported_abis u ≡ true) is_abis fit)

pub parse_artifact-same :
    (a a' : InstallArtifact) → parse_artifact (artifact_dict a) ≡ some a' → a' ≡ a
unfolding artifact_dict fields_of item
parse_artifact-same a a' h =
    let i = parse_artifact-IsArtifact (artifact_dict a) a' h in
    let same = some_eq i.is_object in
    artifact_ext a' a (i.is_schema ∙ sym (from_constant _ _ _ _ same refl i.schema))
      (from_text _ _ _ _ same refl i.release_tag) (from_text _ _ _ _ same refl i.version_name)
      (from_number _ _ _ _ _ same refl (i.version_code.0, i.version_code.1, i.version_code.2))
      (from_text _ _ _ _ same refl i.apk_name) (from_text _ _ _ _ same refl i.apk_sha256)
      (from_number _ _ _ _ _ same refl i.apk_size)
      (i.is_package ∙ sym (from_constant _ _ _ _ same refl i.package_name))
      (from_text _ _ _ _ same refl i.signer) (from_number _ _ _ _ _ same refl i.min_sdk)
      (i.is_abis ∙ sym (abis_of _ _ _ same refl i.abis)) (from_text _ _ _ _ same refl i.database)
      (i.is_component ∙ sym (from_constant _ _ _ _ same refl i.component))
