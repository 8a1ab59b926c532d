-- ===== src/Registry.antt =====
-- portal/validator.py: which cases answer a failure family, and the assertions that each must execute.
use devin_automation.Prelude.{String, List, [], ◌∷◌, ◌==◌, string_eq, if◌then◌else◌}

abbrev defect_s2 : List String
defect_s2 =
    "new_exploration_does_not_reuse_a_discarded_key"
    ∷ "discarded_link_stays_dead_after_a_new_exploration"
    ∷ "the_new_exploration_reads_back_exactly_what_was_saved"
    ∷ "control_a_second_workspace_gets_its_own_key"
    ∷ "control_a_second_workspace_reads_its_own_state"
    ∷ "control_same_context_save_without_discarding_updates_in_place"
    ∷ "control_same_context_reuse_serves_the_latest_state" ∷ []

abbrev defect_s1 : List String
defect_s1 =
    "the_requested_sort_change_persists" ∷ "an_omitted_row_limit_keeps_the_saved_value"
    ∷ "an_omitted_palette_keeps_the_saved_value" ∷ "control_an_explicit_row_limit_is_applied"
    ∷ "control_an_explicit_schema_default_row_limit_is_applied"
    ∷ "control_a_new_chart_keeps_the_schema_default_row_limit" ∷ []

abbrev defect_b1 : List String
defect_b1 =
    "large_values_are_formatted" ∷ "no_formatter_warning_is_logged"
    ∷ "large_values_are_formatted_on_a_second_load"
    ∷ "no_formatter_warning_is_logged_on_a_second_load"
    ∷ "control_small_values_keep_their_format_in_the_same_chart"
    ∷ "control_the_small_value_chart_is_unchanged" ∷ "control_the_small_value_chart_logs_nothing"
    ∷ []

abbrev control_n1 : List String
control_n1 =
    "control_the_restricted_role_can_list_charts" ∷ "the_restricted_role_is_denied_a_write"
    ∷ "the_restricted_role_is_denied_chart_data" ∷ []

-- REQUIRED_CHECKS; a case without an entry has none.
unfoldable pub required_checks : String → List String
required_checks name =
    if name == "S2"
    then defect_s2
    else if name == "S1"
    then defect_s1
    else if name == "B1"
    then defect_b1
    else if name == "N1"
    then control_n1
    else []

-- CASES_BY_FAMILY, which `Verifier.cases_for` reads too; a family without an entry has none.
unfoldable pub cases_for : String → List String
cases_for family =
    if family == "discarded_form_data_key_is_reused"
    then "S2" ∷ "N1" ∷ []
    else if family == "omitted_row_limit_is_reset"
    then "S1" ∷ "N1" ∷ []
    else if family == "bigint_number_format_not_applied"
    then "B1" ∷ []
    else []
