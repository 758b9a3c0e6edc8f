-- ===== src/Previews.antt =====
-- The dialogs that preview a change of a container's port or of its autostart:
-- Ui/container-port-preview.js and Ui/container-autostart-preview.js. Both have the same dialog,
-- Previews/Dialog, for two contracts, Previews/Port and Previews/AutoStart; what these share is here.
pub mod Port
pub mod AutoStart
pub mod Dialog
pub mod Laws
mod Tests
use sql_server_lab.Prelude.{
  ℕ, ◌+◌, String, Bool, true, false, ◌&&◌, ◌||◌, List, [], ◌∷◌, all, map, distinct, leb, length,
  ◌==◌, ◌++◌, if◌then◌else◌,
}
use sql_server_lab.Js.{
  Value, get, shape, is_str, is_null, is_array, is_false, is_empty_array, is_one_of, is_integer_in,
  nat_of, array_of, matches, codes, text_of,
}
use sql_server_lab.Js.Patterns.{guid_i, instance_name}

-- targetValid.
unfoldable pub valid_target : Value → Bool
valid_target t =
    shape t ("RunId" ∷ "InstanceId" ∷ "Provider" ∷ [])
    && matches guid_i (get t "RunId")
    && matches instance_name (get t "InstanceId")
    && is_one_of ("docker" ∷ "podman" ∷ []) (get t "Provider")

-- `m[n]` is an integer from 0 to 1024.
abbrev pub is_count : Value → Bool
is_count = is_integer_in 0 1024

unfoldable pub mount_counts : Value → Bool
mount_counts m =
    all (λ (n : String). is_count (get m n))
      ("TotalMountCount" ∷ "VolumeMountCount" ∷ "HostBindCount" ∷ "WritableHostBindCount"
        ∷ "OtherMountCount" ∷ [])
    && nat_of (get m "TotalMountCount")
      == nat_of (get m "VolumeMountCount")
        + nat_of (get m "HostBindCount")
        + nat_of (get m "OtherMountCount")
    && leb (nat_of (get m "WritableHostBindCount")) (nat_of (get m "HostBindCount"))

-- The mounts of a plan that measured them.
unfoldable pub mount_names : Value → Bool
mount_names m =
    shape m (
      "Status" ∷ "TotalMountCount" ∷ "VolumeMountCount" ∷ "HostBindCount" ∷ "WritableHostBindCount"
      ∷ "OtherMountCount" ∷ "VolumeOwnership" ∷ [])
    && is_str (get m "Status") "MEASURED"
    && is_str (get m "VolumeOwnership") "NOT_CHECKED"

abbrev pub is_provider : Value → Bool
is_provider v = is_null v || is_one_of ("docker" ∷ "podman" ∷ []) v

abbrev pub plan_names : List String
plan_names =
    "Contract" ∷ "Mode" ∷ "Status" ∷ "Reason" ∷ "Provider" ∷ "ObservationKey" ∷ "Actual" ∷ "Desired"
    ∷ "NoChange" ∷ "ChangeClass" ∷ "CanApply" ∷ "MutationAllowed" ∷ "Actions" ∷ "Preview" ∷ []

abbrev pub statuses : List String
statuses = "PLAN_ONLY" ∷ "BLOCKED" ∷ "UNSUPPORTED" ∷ []

-- What makes a plan harmless: it cannot be applied and asks for no action.
unfoldable pub is_harmless : Value → Bool
is_harmless v =
    is_false (get v "CanApply")
    && is_false (get v "MutationAllowed")
    && is_empty_array (get v "Actions")

-- `t.RunId + '|' + t.InstanceId`.
abbrev pub target_key : Value → List ℕ
target_key t = codes (text_of (get t "RunId")) ++ b'|' ∷ codes (text_of (get t "InstanceId"))

abbrev same : List ℕ → List ℕ → Bool
same [] [] = true
same [] (d ∷ ds) = false
same (c ∷ cs) [] = false
same (c ∷ cs) (d ∷ ds) = c == d && same cs ds

abbrev occurs : List ℕ → List Value → Bool
occurs key [] = false
occurs key (t ∷ ts) = same (target_key t) key || occurs key ts

-- `new Set(…).size === view.Targets.length` for the keys of the targets.
abbrev pub all_different : List Value → Bool
all_different [] = true
all_different (t ∷ ts) = (if occurs (target_key t) ts then false else true) && all_different ts

-- The answer to `Read`, with the contract of either dialog.
unfoldable pub targets_head : String → Value → Bool
targets_head contract view =
    shape view
      ("ContractVersion" ∷ "Status" ∷ "Targets" ∷ "CanApply" ∷ "MutationAllowed" ∷ "Actions" ∷ [])
    && is_str (get view "ContractVersion") contract
    && is_str (get view "Status") "METADATA_ONLY"
    && is_harmless view
    && is_array (get view "Targets")
    && leb (length (array_of (get view "Targets"))) 4096

unfoldable pub valid_targets : String → Value → Bool
valid_targets contract view =
    targets_head contract view
    && all valid_target (array_of (get view "Targets"))
    && all_different (array_of (get view "Targets"))

-- What distinguishes the two dialogs: the contract of the targets, the choices that may be sent, and
-- the plans that may be shown for a provider.
pub record Kind : Type 0 where
  pub contract : String
  pub accepts : String → Bool
  pub valid_plan : Value → String → Bool
