-- ===== src/Tests/Checklists.antt =====
-- The commissioning guidance of a panel whose helper is ready.
use ha_paneld_home_assistant.Prelude.{◌≡◌, refl, false, some, [], ◌∷◌, Text, codes, pos}
use ha_paneld_home_assistant.Value.{Value, Fields, str, int, arr, obj, nil, cons, end, field}
use ha_paneld_home_assistant.Web.{Web}
use ha_paneld_home_assistant.Provisioning.Guidance.{ProvisioningPlan, parse_provisioning_plan}
use ha_paneld_home_assistant.Provisioning.Allowlisted.{
  IsAllowlisted, parse_provisioning_plan-IsAllowlisted,
}
use ha_paneld_home_assistant.Provisioning.Presented.{
  IsPresented, parse_provisioning_plan-IsPresented,
}
use ha_paneld_home_assistant.Tests.Online.{line_of, web}

entry : Text → Text → Text → Fields
entry id importance reason = field (codes "id") (str id) (
    field (codes "importance") (str importance) (
      field (codes "status") (str (codes "satisfied")) (
        field (codes "executor") (str (codes "none"))
          (field (codes "reason_code") (str reason) end))))

unfoldable checklist : Value
unfolding entry
checklist = obj (
    field (codes "plan_schema") (int (pos 1)) (
      field (codes "state") (str (codes "satisfied")) (
        field (codes "items")
          (arr (
            cons
              (obj (entry (codes "access.helper") (codes "required") (codes "helper_compatible")))
              (cons
                (obj
                  (entry (codes "software.webview") (codes "optional") (codes "webview_missing")))
                nil)))
          end)))

abbrev plan : ProvisioningPlan
plan = record {
  state = codes "satisfied";
  items =
      record {
        id = codes "access.helper";
        importance = codes "required";
        status = codes "satisfied";
        executor = codes "none";
        reason_code = codes "helper_compatible";
      }
      ∷ record {
        id = codes "software.webview";
        importance = codes "optional";
        status = codes "satisfied";
        executor = codes "none";
        reason_code = codes "webview_missing";
      }
      ∷ [];
  needs_updated_client = false;
}

abbrev panel_web : Web
panel_web = web 0 (checklist ∷ [])

plan_run : parse_provisioning_plan panel_web (line_of 0) ≡ some plan
unfolding parse_provisioning_plan checklist
plan_run = refl

parse_provisioning_plan-IsAllowlisted_example : IsAllowlisted plan
parse_provisioning_plan-IsAllowlisted_example =
    parse_provisioning_plan-IsAllowlisted panel_web (line_of 0) plan plan_run

parse_provisioning_plan-IsPresented_example : IsPresented panel_web (line_of 0) plan
parse_provisioning_plan-IsPresented_example =
    parse_provisioning_plan-IsPresented panel_web (line_of 0) plan plan_run refl
