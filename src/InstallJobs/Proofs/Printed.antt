-- ===== src/InstallJobs/Proofs/Printed.antt =====
-- `_parse_target` and `_parse_artifact`: what they read from a document, what they make of the
-- documents that `asdict` makes, and that they take what they have made.
use ha_paneld_home_assistant.Prelude.{
  ◌≡◌, refl, true, ◌&&◌, Option, some, all, Text, codes, text_eq, and-eq-true, Gives, Gives-some,
  Gives-bind, Gives-check, is_hex,
}
use ha_paneld_home_assistant.Value.{Value, str, Fields, item, keys_are, is_text}
use ha_paneld_home_assistant.Platform.{Platform}
use ha_paneld_home_assistant.Release.Tags.{artifact_identity_matches}
use ha_paneld_home_assistant.InstallJobs.Receipt.{InstallTarget, InstallArtifact}
use ha_paneld_home_assistant.InstallJobs.Scalars.{
  safe_text, integer, is_adb_serial, is_abi, is_apk_name, database_groups, max_sdk,
  max_version_code, max_apk_bytes,
}
use ha_paneld_home_assistant.InstallJobs.Parse.{
  fields_of, release_signer, are_supported_abis, supported_abis_list, is_database_range,
  descriptor_schema_id, package_id_text, launch_component_text, target_keys, artifact_keys,
  check_addresses, parse_target, parse_artifact,
}

-- `x` was read from the field of the key.
abbrev pub From : {A : Type 0} → (Value → Option A) → Text → Fields → A → Type 0
From parse key fields x = (v : Value) × (item key fields ≡ some v) × (parse v ≡ some x)

pub record IsTarget (p : Platform) (v : Value) (t : InstallTarget) : Type 0 where
  pub fields : Fields
  pub is_object : fields_of v ≡ some fields
  pub address : From (safe_text 255) (codes "address") fields t.address
  pub pinned_address : From (safe_text 255) (codes "pinned_address") fields t.pinned_address
  pub addresses : check_addresses p t.address t.pinned_address ≡ some tt
  pub model : From (safe_text 128) (codes "model") fields t.model
  pub adb_serial : From (safe_text 128) (codes "adb_serial") fields t.adb_serial
  pub primary_abi : From (safe_text 64) (codes "primary_abi") fields t.primary_abi
  pub characters :
      (all p.is_printable t.model && (is_adb_serial t.adb_serial && is_abi t.primary_abi)) ≡ true
  pub android_sdk : From (integer 1 max_sdk) (codes "android_sdk") fields t.android_sdk

module _ (p : Platform) where
  pub parse_target-IsTarget : (v : Value) → Gives (IsTarget p v) (parse_target p v)
  unfolding parse_target
  parse_target-IsTarget v = Gives-bind _ (fields_of v) _ λ fields is_object.
      Gives-check _ (keys_are target_keys fields) _ λ keyed.
        Gives-bind _ (item (codes "address") fields) _ λ v1 e1.
          Gives-bind _ (safe_text 255 v1) _ λ address is_address.
            Gives-bind _ (item (codes "pinned_address") fields) _ λ v2 e2.
              Gives-bind _ (safe_text 255 v2) _ λ pinned is_pinned.
                Gives-bind _ (check_addresses p address pinned) _ λ u addresses.
                  Gives-bind _ (item (codes "model") fields) _ λ v3 e3.
                    Gives-bind _ (safe_text 128 v3) _ λ model is_model.
                      Gives-bind _ (item (codes "adb_serial") fields) _ λ v4 e4.
                        Gives-bind _ (safe_text 128 v4) _ λ serial is_serial.
                          Gives-bind _ (item (codes "primary_abi") fields) _ λ v5 e5.
                            Gives-bind _ (safe_text 64 v5) _ λ abi is_primary_abi.
                              Gives-check _
                                (all p.is_printable model && (is_adb_serial serial && is_abi abi)) _
                                λ characters.
                                  Gives-bind _ (item (codes "android_sdk") fields) _ λ v6 e6.
                                    Gives-bind _ (integer 1 max_sdk v6) _ λ sdk is_sdk.
                                      Gives-some _ _ (record {
                                        fields = fields;
                                        is_object = is_object;
                                        address = (v1, e1, is_address);
                                        pinned_address = (v2, e2, is_pinned);
                                        addresses = addresses;
                                        model = (v3, e3, is_model);
                                        adb_serial = (v4, e4, is_serial);
                                        primary_abi = (v5, e5, is_primary_abi);
                                        characters = characters;
                                        android_sdk = (v6, e6, is_sdk);
                                      })

-- `d` is a constant that the field holds.
abbrev pub Holds : Text → Text → Fields → Type 0
Holds d key fields = (v : Value) × (item key fields ≡ some v) × (is_text d v ≡ true)

pub record IsArtifact (v : Value) (a : InstallArtifact) : Type 0 where
  pub fields : Fields
  pub is_object : fields_of v ≡ some fields
  pub release_tag : From (safe_text 128) (codes "release_tag") fields a.release_tag
  pub version_name : From (safe_text 128) (codes "version_name") fields a.version_name
  pub apk_name : From (safe_text 255) (codes "apk_name") fields a.apk_name
  pub apk_sha256 : From (safe_text 64) (codes "apk_sha256") fields a.apk_sha256
  pub signer :
      From (safe_text 64) (codes "signer_certificate_sha256") fields a.signer_certificate_sha256
  pub signed : text_eq a.signer_certificate_sha256 release_signer ≡ true
  pub abis :
      (w : Value) × (item (codes "supported_abis") fields ≡ some w) × (are_supported_abis w ≡ true)
  pub is_abis : a.supported_abis ≡ supported_abis_list
  pub database :
      From (safe_text 128) (codes "database_compatibility") fields a.database_compatibility
  pub range :
      (groups : Text × Text) × (database_groups a.database_compatibility ≡ some groups)
      × (is_database_range groups ≡ true)
  pub schema : Holds descriptor_schema_id (codes "descriptor_schema") fields
  pub is_schema : a.descriptor_schema ≡ descriptor_schema_id
  pub package_name : Holds package_id_text (codes "package_id") fields
  pub is_package : a.package_id ≡ package_id_text
  pub component : Holds launch_component_text (codes "launch_component") fields
  pub is_component : a.launch_component ≡ launch_component_text
  pub version_code :
      (w : Value) × (item (codes "version_code") fields ≡ some w)
      × (integer 1 max_version_code w ≡ some a.version_code)
      × (artifact_identity_matches
            (str a.release_tag)
            (str a.version_name)
            w
            (str a.apk_name)
            (str a.apk_sha256)
          ≡ true)
  pub names : (is_apk_name a.apk_name && is_hex 64 a.apk_sha256) ≡ true
  pub apk_size : From (integer 1 max_apk_bytes) (codes "apk_size") fields a.apk_size
  pub min_sdk : From (integer 1 max_sdk) (codes "min_sdk") fields a.min_sdk

pub parse_artifact-IsArtifact : (v : Value) → Gives (IsArtifact v) (parse_artifact v)
unfolding parse_artifact
parse_artifact-IsArtifact v = Gives-bind _ (fields_of v) _ λ fields is_object.
    Gives-check _ (keys_are artifact_keys fields) _ λ keyed.
      Gives-bind _ (item (codes "release_tag") fields) _ λ v1 e1.
        Gives-bind _ (safe_text 128 v1) _ λ tag is_tag.
          Gives-bind _ (item (codes "version_name") fields) _ λ v2 e2.
            Gives-bind _ (safe_text 128 v2) _ λ version is_version.
              Gives-bind _ (item (codes "apk_name") fields) _ λ v3 e3.
                Gives-bind _ (safe_text 255 v3) _ λ name is_name.
                  Gives-bind _ (item (codes "apk_sha256") fields) _ λ v4 e4.
                    Gives-bind _ (safe_text 64 v4) _ λ sha256 is_sha256.
                      Gives-bind _ (item (codes "signer_certificate_sha256") fields) _ λ v5 e5.
                        Gives-bind _ (safe_text 64 v5) _ λ signer is_signer.
                          Gives-bind _ (item (codes "supported_abis") fields) _ λ v6 e6.
                            Gives-bind _ (item (codes "database_compatibility") fields) _ λ v7 e7.
                              Gives-bind _ (safe_text 128 v7) _ λ database is_database.
                                Gives-bind _ (item (codes "descriptor_schema") fields) _ λ v8 e8.
                                  Gives-bind _ (item (codes "package_id") fields) _ λ v9 e9.
                                    Gives-bind _ (item (codes "launch_component") fields) _
                                      λ v10 e10.
                                        Gives-bind _ (item (codes "version_code") fields) _
                                          λ v11 e11.
                                            Gives-check _
                                              (is_text descriptor_schema_id v8
                                                && is_text package_id_text v9)
                                              _
                                              λ c1.
                                                Gives-check _
                                                  (is_text launch_component_text v10
                                                    && text_eq signer release_signer)
                                                  _
                                                  λ c2.
                                                    Gives-check _ (are_supported_abis v6) _ λ c3.
                                                      Gives-check _
                                                        (artifact_identity_matches (str tag)
                                                          (str version) v11 (str name) (str sha256))
                                                        _
                                                        λ c4.
                                                          Gives-check _
                                                            (is_apk_name name && is_hex 64 sha256) _
                                                            λ c5.
                                                            Gives-bind _ (database_groups database)
                                                            _
                                                            λ groups is_groups.
                                                            Gives-check _ (is_database_range groups)
                                                            _
                                                            λ c6.
                                                            Gives-bind _
                                                            (integer 1 max_version_code v11) _
                                                            λ code is_code.
                                                            Gives-bind _
                                                            (item (codes "apk_size") fields) _
                                                            λ v12 e12.
                                                            Gives-bind _
                                                            (integer 1 max_apk_bytes v12) _
                                                            λ size is_size.
                                                            Gives-bind _
                                                            (item (codes "min_sdk") fields) _
                                                            λ v13 e13.
                                                            Gives-bind _ (integer 1 max_sdk v13) _
                                                            λ sdk is_sdk. Gives-some _ _ (record {
                                                            fields = fields;
                                                            is_object = is_object;
                                                            release_tag = (v1, e1, is_tag);
                                                            version_name = (v2, e2, is_version);
                                                            apk_name = (v3, e3, is_name);
                                                            apk_sha256 = (v4, e4, is_sha256);
                                                            signer = (v5, e5, is_signer);
                                                            signed = (and-eq-true _ _ c2).1;
                                                            abis = (v6, e6, c3);
                                                            is_abis = refl;
                                                            database = (v7, e7, is_database);
                                                            range = (groups, is_groups, c6);
                                                            schema =
                                                            (v8, e8, (and-eq-true _ _ c1).0);
                                                            is_schema = refl;
                                                            package_name =
                                                            (v9, e9, (and-eq-true _ _ c1).1);
                                                            is_package = refl;
                                                            component =
                                                            (v10, e10, (and-eq-true _ _ c2).0);
                                                            is_component = refl;
                                                            version_code = (v11, e11, is_code, c4);
                                                            names = c5;
                                                            apk_size = (v12, e12, is_size);
                                                            min_sdk = (v13, e13, is_sdk);
                                                            })
