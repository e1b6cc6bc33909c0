-- ===== src/Provisioning/Guidance.antt =====
-- The commissioning guidance of a panel: custom_components/panel_assistant/provisioning_plan.py.
-- `none` is `InvalidResponseError`.
use ha_paneld_home_assistant.Prelude.{
  ℕ, Bool, true, false, ◌&&◌, ◌||◌, not, Option, none, some, List, [], ◌∷◌, ◌++◌, leb, ◌==◌, length,
  if◌then◌else◌, ◌>>=◌, ◌>>◌, check, Text, codes, mem_text, chars_in, is_digit, pos,
}
use ha_paneld_home_assistant.Value.{Value, int, Items, nil, cons, Fields, item}
use ha_paneld_home_assistant.Web.{Web}
use ha_paneld_home_assistant.Release.Descriptor.{load_document, text_of}
use ha_paneld_home_assistant.InstallJobs.Parse.{fields_of}
use ha_paneld_home_assistant.InstallJobs.Document.{items_of, item_count}

abbrev pub max_provisioning_bytes : ℕ
max_provisioning_bytes = 32768

abbrev pub ids : List Text
ids = codes "access.helper" ∷ codes "access.shizuku" ∷ codes "software.webview" ∷ []

abbrev pub importances : List Text
importances = codes "required" ∷ codes "recommended" ∷ codes "optional" ∷ []

abbrev pub statuses : List Text
statuses =
    codes "satisfied"
    ∷ codes "actionable"
    ∷ codes "manual"
    ∷ codes "blocked"
    ∷ codes "degraded"
    ∷ codes "not_applicable"
    ∷ []

abbrev pub executors : List Text
executors = codes "app" ∷ codes "host" ∷ codes "local_user" ∷ codes "none" ∷ []

-- The reasons that each component may give.
component_reasons : Text → List Text → List Text
component_reasons component rest =
    (component ++ codes "_identity_unavailable")
    ∷ (component ++ codes "_observation_not_ready")
    ∷ (component ++ codes "_probe_failed")
    ∷ (component ++ codes "_probe_unsupported")
    ∷ rest

unfoldable pub reasons : List Text
unfolding component_reasons
reasons =
    codes "helper_compatible"
    ∷ codes "daemon_driver_without_helper"
    ∷ codes "helper_incompatible"
    ∷ codes "shizuku_ready"
    ∷ codes "shizuku_consent_disabled"
    ∷ codes "shizuku_permission_required"
    ∷ codes "shizuku_service_not_running"
    ∷ codes "profile_recommended"
    ∷ codes "profile_optional"
    ∷ codes "webview_version_unreadable"
    ∷ codes "webview_recommendation_satisfied"
    ∷ codes "webview_outdated"
    ∷ codes "webview_missing"
    ∷ component_reasons (codes "helper")
        (component_reasons (codes "shizuku") (component_reasons (codes "webview") []))

pub record ProvisioningItem : Type 0 where
  pub id : Text
  pub importance : Text
  pub status : Text
  pub executor : Text
  pub reason_code : Text

pub record ProvisioningPlan : Type 0 where
  pub state : Text
  pub items : List ProvisioningItem
  pub needs_updated_client : Bool

is_lower : ℕ → Bool
is_lower c = leb b'a' c && leb c b'z'

is_code_char : ℕ → Bool
unfolding is_lower is_digit
is_code_char c = is_lower c || (is_digit c || ((c == b'_') || (c == b'.')))

-- `[a-z][a-z0-9_.]{0,95}`
is_code : Text → Bool
unfolding is_lower chars_in is_code_char
is_code [] = false
is_code (c ∷ s) = is_lower c && (leb (length s) 95 && chars_in is_code_char s)

-- `_code(fields.get(key))`
unfoldable pub code : Text → Fields → Option Text
unfolding item text_of is_code
code key fields = do s ← text_of (← item key fields); check (is_code s); some s

-- The five codes of an entry, as it has them.
unfoldable pub entry_codes : Value → Option ProvisioningItem
unfolding fields_of code
entry_codes v = do
  fields ← fields_of v
  identity ← code (codes "id") fields
  importance ← code (codes "importance") fields
  status ← code (codes "status") fields
  executor ← code (codes "executor") fields
  reason ← code (codes "reason_code") fields
  some (record {
    id = identity;
    importance = importance;
    status = status;
    executor = executor;
    reason_code = reason;
  })

-- The variables of the loop.
pub record Reading : Type 0 where
  pub items : List ProvisioningItem
  pub seen : List Text
  pub updated : Bool

unfoldable pub are_known_terms : ProvisioningItem → Bool
unfolding mem_text
are_known_terms i =
    mem_text i.importance importances
    && (mem_text i.status statuses && mem_text i.executor executors)

-- An entry whose identifier is new.
unfoldable pub keep : ProvisioningItem → Reading → Reading
unfolding mem_text reasons are_known_terms
keep i r =
    if not (mem_text i.id ids)
    then record r { seen = i.id ∷ r.seen; updated = true }
    else if not (are_known_terms i)
    then record r { seen = i.id ∷ r.seen; updated = true }
    else if not (mem_text i.reason_code reasons)
    then record {
      items = r.items ++ (record i { reason_code = codes "unknown" } ∷ []);
      seen = i.id ∷ r.seen;
      updated = true;
    }
    else record r { items = r.items ++ (i ∷ []); seen = i.id ∷ r.seen }

unfoldable pub read_items : Items → Reading → Option Reading
unfolding entry_codes mem_text keep
read_items nil r = some r
read_items (cons v vs) r = do
  i ← entry_codes v
  check (not (mem_text i.id r.seen))
  read_items vs (keep i r)

unfoldable pub read_issues : Items → Bool → Option Bool
unfolding fields_of code
read_issues nil updated = some updated
read_issues (cons v vs) updated = do
  fields ← fields_of v
  issue ← code (codes "code") fields
  read_issues vs true

unfoldable pub is_one : Value → Bool
is_one (int (pos n)) = n == 1
is_one _ = false

-- `doc.get("issues", [])`
unfoldable pub issues_of : Fields → Option Items
unfolding item items_of
issues_of fields = elim (item (codes "issues") fields) [ none ↦ some nil | some v ↦ items_of v ]

module _ (w : Web) where
  unfoldable pub parse_provisioning_plan : Text → Option ProvisioningPlan
  unfolding load_document fields_of item is_one text_of mem_text items_of item_count read_items
      issues_of read_issues
  parse_provisioning_plan body = do
    check (leb (length body) max_provisioning_bytes)
    document ← load_document w body
    fields ← fields_of document
    check (is_one (← item (codes "plan_schema") fields))
    state ← text_of (← item (codes "state") fields)
    check (mem_text state (codes "satisfied" ∷ codes "attention" ∷ []))
    entries ← items_of (← item (codes "items") fields)
    check (leb (item_count entries) 32)
    r ← read_items entries (record { items = []; seen = []; updated = false })
    issues ← issues_of fields
    check (leb (item_count issues) 32)
    updated ← read_issues issues r.updated
    some (record { state = state; items = r.items; needs_updated_client = updated })
