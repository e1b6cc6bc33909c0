-- ===== src/InstallJobs/Document/Serialize.antt =====
-- `_serialize_document` of custom_components/panel_assistant/install_jobs.py.
use ha_paneld_home_assistant.Prelude.{
  Bool, ◌&&◌, ◌||◌, not, List, [], ◌∷◌, if◌then◌else◌, Text, codes, text_eq, text_ltb,
}
use ha_paneld_home_assistant.Value.{Value, str, arr, obj, Items, nil, cons, end, field}
use ha_paneld_home_assistant.InstallJobs.Receipt.{InstallJobReceipt}
use ha_paneld_home_assistant.InstallJobs.Document.Dict.{Jobs, values}
use ha_paneld_home_assistant.InstallJobs.Document.Fields.{serialize_receipt}

-- `key(a) <= key(b)` for a key of two texts.
unfoldable pub pair_le : Text × Text → Text × Text → Bool
unfolding text_ltb text_eq
pair_le (a, b) (c, d) = text_ltb a c || (text_eq a c && not (text_ltb d b))

unfoldable pub insert_by {ℓ} : {A : Type ℓ} → (A → A → Bool) → A → List A → List A
insert_by le x [] = x ∷ []
insert_by le x (y ∷ ys) = if le x y then x ∷ y ∷ ys else y ∷ insert_by le x ys

-- `sorted(…)`: stable.
unfoldable pub sort_by {ℓ} : {A : Type ℓ} → (A → A → Bool) → List A → List A
unfolding insert_by
sort_by le [] = []
sort_by le (x ∷ xs) = insert_by le x (sort_by le xs)

-- By `(created_at, job_id)`.
unfoldable pub in_order : Jobs → List InstallJobReceipt
unfolding sort_by pair_le
in_order jobs =
    sort_by (λ a b. pair_le (a.created_at, a.job_id) (b.created_at, b.job_id)) (values jobs)

unfoldable pub serialize_all : List InstallJobReceipt → Items
unfolding serialize_receipt
serialize_all [] = nil
serialize_all (r ∷ rs) = cons (serialize_receipt r) (serialize_all rs)

unfoldable pub serialize_document : Jobs → Value
unfolding serialize_all in_order
serialize_document jobs = obj (
    field (codes "format") (str (codes "ha-paneld-install-jobs-v1"))
      (field (codes "jobs") (arr (serialize_all (in_order jobs))) end))
