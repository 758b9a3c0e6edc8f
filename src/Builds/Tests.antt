-- ===== src/Builds/Tests.antt =====
-- The theorems about the buttons of an image build at concrete inputs.
use sql_server_lab.Prelude.{false, [], ◌≡◌, ◌↔◌, refl, keep, length}
use sql_server_lab.Builds.{
  windows, sql, Build, Button, cleanup_action_for, sql_actions, actions_for,
}
use sql_server_lab.Builds.Laws.{actions_for_cleanup, actions_for-eq-nil_iff}

abbrev waiting : Build
waiting = record {
  state = "MANUAL_ACTION_REQUIRED";
  installation_verified = false;
  provisioning_mode = "fresh-windows-media";
}

actions_for_cleanup_example :
    keep (λ (b : Button). b.cleanup) (actions_for sql waiting) ≡ cleanup_action_for sql waiting
actions_for_cleanup_example = actions_for_cleanup sql waiting tt

actions_for-eq-nil_iff_example : (actions_for windows waiting ≡ []) ↔ (waiting.state ≡ "CLEANED_UP")
actions_for-eq-nil_iff_example = actions_for-eq-nil_iff windows waiting tt

offered : length (actions_for sql waiting) ≡ 3
unfolding actions_for sql_actions cleanup_action_for
offered = refl
