-- ===== src/InstallJobs/Proofs/Again.antt =====
-- The parsers of custom_components/panel_assistant/install_jobs.py take again what they have made.
use ha_paneld_home_assistant.Prelude.{
  ℕ, ◌≡◌, refl, ap, subst, ◌∙◌, true, Option, some, some_eq, Text, codes, arith, pos, Gives,
  Gives-some, Gives-bind, Gives-check, ◌>>=◌, text_eq,
}
use ha_paneld_home_assistant.Value.{
  Value, null, str, int, bool, Fields, item, keys_are, is_text, items_are, texts,
}
use ha_paneld_home_assistant.Platform.{Platform}
use ha_paneld_home_assistant.Release.Tags.{artifact_identity_matches}
use ha_paneld_home_assistant.InstallJobs.Phase.{
  Phase, ResultCode, approved, authorizing, preflight, downloading, artifact_ready, revalidating,
  staging, installing, installed, launching, health_check, healthy_unclaimed, consumed, cancelled,
  failed, recovery_required, entry_created, cancelled_by_user, cancelled_after_staging_cleanup,
  authorization_failed, preflight_rejected, artifact_rejected, transport_failed, install_failed,
  launch_failed, health_check_failed, ambiguous_mutation, verification_required, phase_of, code_of,
  phase_value, code_value,
}
use ha_paneld_home_assistant.InstallJobs.Scalars.{
  safe_text, integer, is_safe_text, timestamp, timestamp_text, is_canonical_moment,
  max_version_code, max_apk_bytes, is_config_entry_id, max_sdk,
}
use ha_paneld_home_assistant.InstallJobs.Parse.{
  are_supported_abis, fields_of, target_dict, artifact_dict, parse_target, parse_artifact,
}
use ha_paneld_home_assistant.InstallJobs.Document.{
  optional, or_null, parse_phase, parse_code, parse_bool, parse_root_mode, parse_entry_id,
}
use ha_paneld_home_assistant.InstallJobs.Proofs.Printed.{
  From, parse_target-IsTarget, parse_artifact-IsArtifact,
}

-- What `parse` makes, `print` shows in a form that `parse` takes for the same.
abbrev pub TakesAgain : {A : Type 0} → (Value → Option A) → (A → Value) → Type 0
TakesAgain {A = A} parse print = (v : Value) → Gives (λ x. parse (print x) ≡ some x) (parse v)

pub safe_text-again : (n : ℕ) → TakesAgain (safe_text n) str
unfolding safe_text
safe_text-again n (str s) = λ x e. ground arith
safe_text-again n _ = λ x e. cc

pub integer-again : (a b : ℕ) → TakesAgain (integer a b) (λ n. int (pos n))
unfolding integer
integer-again a b (int (pos n)) = λ x e. ground arith
integer-again a b _ = λ x e. cc

phase_of-value : (ph : Phase) → phase_of (phase_value ph) ≡ some ph
unfolding phase_of phase_value
phase_of-value approved = refl
phase_of-value authorizing = refl
phase_of-value preflight = refl
phase_of-value downloading = refl
phase_of-value artifact_ready = refl
phase_of-value revalidating = refl
phase_of-value staging = refl
phase_of-value installing = refl
phase_of-value installed = refl
phase_of-value launching = refl
phase_of-value health_check = refl
phase_of-value healthy_unclaimed = refl
phase_of-value consumed = refl
phase_of-value cancelled = refl
phase_of-value failed = refl
phase_of-value recovery_required = refl

code_of-value : (code : ResultCode) → code_of (code_value code) ≡ some code
unfolding code_of code_value
code_of-value entry_created = refl
code_of-value cancelled_by_user = refl
code_of-value cancelled_after_staging_cleanup = refl
code_of-value authorization_failed = refl
code_of-value preflight_rejected = refl
code_of-value artifact_rejected = refl
code_of-value transport_failed = refl
code_of-value install_failed = refl
code_of-value launch_failed = refl
code_of-value health_check_failed = refl
code_of-value ambiguous_mutation = refl
code_of-value verification_required = refl

pub parse_phase-again : TakesAgain parse_phase (λ ph. str (phase_value ph))
unfolding parse_phase
parse_phase-again v = λ x e. phase_of-value x

pub parse_code-again : TakesAgain parse_code (λ code. str (code_value code))
unfolding parse_code
parse_code-again v = λ x e. code_of-value x

pub parse_bool-again : TakesAgain parse_bool bool
unfolding parse_bool
parse_bool-again v = λ x e. refl

pub parse_root_mode-again : TakesAgain parse_root_mode str
unfolding parse_root_mode
parse_root_mode-again (str s) = λ x e. ground arith
parse_root_mode-again _ = λ x e. cc

present_again :
    {A : Type 0} (parse : Value → Option A) (print : A → Value)
    → ((x : A) → optional parse (print x) ≡ (parse (print x) >>= λ a. some (some a)))
    → TakesAgain parse print
    → (v : Value)
    → Gives (λ o. optional parse (or_null print o) ≡ some o) (parse v >>= λ a. some (some a))
unfolding or_null
present_again parse print shown again v =
    Gives-bind _ (parse v) _
      λ x e. Gives-some _ (some x) (shown x ∙ ap (λ o. o >>= λ a. some (some a)) (again v x e))

-- An optional field, for a parser that does not take the printed form for `None`.
pub optional-again :
    {A : Type 0} (parse : Value → Option A) (print : A → Value)
    → ((x : A) → optional parse (print x) ≡ (parse (print x) >>= λ a. some (some a)))
    → TakesAgain parse print
    → TakesAgain (optional parse) (or_null print)
unfolding optional or_null
optional-again parse print shown again null =
    λ o e. subst (λ x. optional parse (or_null print x) ≡ some x) (some_eq e) refl
optional-again parse print shown again v = present_again parse print shown again v

text_from :
    (n : ℕ) (key : Text) (fields : Fields) (x : Text)
    → From (safe_text n) key fields x
    → safe_text n (str x) ≡ some x
text_from n key fields x (v, found, parsed) = safe_text-again n v x parsed

number_from :
    (a b : ℕ) (key : Text) (fields : Fields) (x : ℕ)
    → From (integer a b) key fields x
    → integer a b (int (pos x)) ≡ some x
number_from a b key fields x (v, found, parsed) = integer-again a b v x parsed

module _ (p : Platform) where
  timestamp_text-unchanged : (s : Text) → Gives (λ x. s ≡ x) (timestamp_text p s)
  unfolding timestamp_text
  timestamp_text-unchanged s = Gives-check _ (is_safe_text 40 s) _ λ safe.
      Gives-bind _ (p.fromisoformat s) _ λ parsed read.
        Gives-check _ (is_canonical_moment p s parsed) _ λ canonical. Gives-some _ s refl

  timestamp_text-same : (s : Text) → Gives (λ x. timestamp_text p x ≡ some x) (timestamp_text p s)
  timestamp_text-same s =
      λ x e. subst (λ t. timestamp_text p t ≡ some x) (timestamp_text-unchanged s x e) e

  pub timestamp-again : TakesAgain (timestamp p) str
  unfolding timestamp
  timestamp-again (str s) = timestamp_text-same s
  timestamp-again _ = λ x e. cc

  pub parse_entry_id-again : TakesAgain (parse_entry_id p) str
  unfolding parse_entry_id
  parse_entry_id-again v = Gives-bind _ (safe_text 32 v) _ λ entry_id safe.
      Gives-check _ (is_config_entry_id p entry_id) _
        λ valid. Gives-some _ entry_id (rw (safe_text-again 32 v entry_id safe, valid))

  pub parse_target-again : TakesAgain (parse_target p) target_dict
  unfolding parse_target target_dict fields_of keys_are item
  parse_target-again v t e =
      let i = parse_target-IsTarget p v t e in
      rw (
        text_from 255 (codes "address") i.fields t.address i.address,
        text_from 255 (codes "pinned_address") i.fields t.pinned_address i.pinned_address,
        i.addresses,
        text_from 128 (codes "model") i.fields t.model i.model,
        text_from 128 (codes "adb_serial") i.fields t.adb_serial i.adb_serial,
        text_from 64 (codes "primary_abi") i.fields t.primary_abi i.primary_abi,
        i.characters,
        number_from 1 max_sdk (codes "android_sdk") i.fields t.android_sdk i.android_sdk,
      )

integer-value : (a b : ℕ) (v : Value) {n : ℕ} → integer a b v ≡ some n → v ≡ int (pos n)
unfolding integer
integer-value a b (int (pos m)) h = ground arith
integer-value a b _ h = cc

pub parse_artifact-again : TakesAgain parse_artifact artifact_dict
unfolding parse_artifact artifact_dict fields_of keys_are item is_text are_supported_abis texts
    items_are text_eq
parse_artifact-again v a e =
    let i = parse_artifact-IsArtifact v a e in
    let (code_value, found, is_code, identity) = i.version_code in
    let is_number = integer-value 1 max_version_code code_value is_code in
    rw (
      text_from 128 (codes "release_tag") i.fields a.release_tag i.release_tag,
      text_from 128 (codes "version_name") i.fields a.version_name i.version_name,
      text_from 255 (codes "apk_name") i.fields a.apk_name i.apk_name,
      text_from 64 (codes "apk_sha256") i.fields a.apk_sha256 i.apk_sha256,
      text_from 64 (codes "signer_certificate_sha256") i.fields a.signer_certificate_sha256
          i.signer,
      text_from 128 (codes "database_compatibility") i.fields a.database_compatibility i.database,
      i.is_schema,
      i.is_package,
      i.is_component,
      i.is_abis,
      i.signed,
      subst
          (λ w.
            artifact_identity_matches (str a.release_tag) (str a.version_name) w (str a.apk_name)
              (str a.apk_sha256)
            ≡ true)
          is_number identity,
      i.names,
      i.range.1,
      i.range.2,
      subst (λ w. integer 1 max_version_code w ≡ some a.version_code) is_number is_code,
      number_from 1 max_apk_bytes (codes "apk_size") i.fields a.apk_size i.apk_size,
      number_from 1 max_sdk (codes "min_sdk") i.fields a.min_sdk i.min_sdk,
    )
