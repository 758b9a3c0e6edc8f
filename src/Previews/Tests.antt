-- ===== src/Previews/Tests.antt =====
-- The theorems about the previews of containers at concrete inputs.
use sql_server_lab.Prelude.{String, true, false, [], ◌∷◌, none, some, ◌≡◌, refl}
use sql_server_lab.Js.{Value, bool, num, str, arr, obj, end, field, get, no_more, text_of}
use sql_server_lab.Js.Patterns.{guid_i, instance_name, digits_between}
use sql_server_lab.Previews.{valid_target}
use sql_server_lab.Previews.Port
use sql_server_lab.Previews.Dialog.{
  preview, Dialog, selected_target, invalidate, Payload, preview_change, Ticket, ask,
  waiting_dialog, choose, preview_request, begin_request, handle, run,
}
use sql_server_lab.Previews.Laws.{preview_is_bound}

abbrev mounts : Value
mounts = obj (
    field "Status" (str "MEASURED") (
      field "TotalMountCount" (num 3) (
        field "VolumeMountCount" (num 1) (
          field "HostBindCount" (num 2) (
            field "WritableHostBindCount" (num 1) (
              field "OtherMountCount" (num 0)
                (field "VolumeOwnership" (str "NOT_CHECKED") end)))))))

abbrev key : String
key = "0123456789abcdef0123456789abcdef0123456789abcdef0123456789abcdef"

abbrev plan : Value
plan = obj (
    field "Contract"
      (obj
        (field "Name" (str "SqlServerLab.ContainerPortPreview") (field "Version" (str "1.0") end)))
      (field "Mode" (str "CONTAINER_PORT_PREVIEW_PLAN_ONLY") (
        field "Status" (str "PLAN_ONLY") (
          field "Reason" (str "PORT_PREVIEW_APPLY_NOT_IMPLEMENTED") (
            field "Provider" (str "docker") (
              field "ObservationKey" (str key) (
                field "Actual"
                  (obj (
                    field "Evidence" (str "MEASURED") (
                      field "SqlBinding" (str "SINGLE_LOOPBACK_1433_TCP")
                        (field "Lifecycle" (str "RUNNING") end))))
                  (field "Desired" (obj (field "PortChange" (str "DIFFERENT_PORT") end)) (
                    field "NoChange" (bool false) (
                      field "ChangeClass" (str "recreate") (
                        field "CanApply" (bool false) (
                          field "MutationAllowed" (bool false) (
                            field "Actions" (arr no_more) (
                              field "Preview"
                                (obj (
                                  field "Downtime" (str "REQUIRED") (
                                    field "Endpoint" (str "NOT_CHECKED") (
                                      field "Sql" (str "NOT_CHECKED") (
                                        field "Backup" (str "NOT_CHECKED") (
                                          field "DataImpact" (str "NOT_VERIFIED")
                                            (field "Mounts" mounts end)))))))
                                end))))))))))))))

abbrev target : Value
target = obj (
    field "RunId" (str "0f8fad5b-d9cb-469f-a165-70867728950e")
      (field "InstanceId" (str "sql1") (field "Provider" (str "docker") end)))

abbrev dialog : Dialog
dialog = record {
  revision = 1;
  targets = target ∷ [];
  busy = false;
  is_open = true;
  selected = some 0;
  choice = "";
  result = none;
  plan_disabled = false;
  read_disabled = false;
  target_disabled = false;
}

abbrev ticket : Ticket
ticket = record { action = preview; provider = "docker"; revision = 3 }

abbrev change : Payload
change = preview_change "0f8fad5b-d9cb-469f-a165-70867728950e" "sql1" "14333"

preview_is_bound_example :
    (v : Value) × (selected_target (run Port.port (choose "14333" ∷ []) dialog) ≡ some v)
    × (valid_target v ≡ true)
    × (Port.accepts (run Port.port (choose "14333" ∷ []) dialog).choice ≡ true)
    × (change
        ≡ preview_change
            (text_of (get v "RunId"))
            (text_of (get v "InstanceId"))
            (run Port.port (choose "14333" ∷ []) dialog).choice)
    × (ticket.provider ≡ text_of (get v "Provider"))
unfolding run handle invalidate begin_request preview_request ask waiting_dialog Port.accepts
    valid_target digits_between guid_i instance_name
preview_is_bound_example =
    preview_is_bound Port.port (choose "14333" ∷ []) dialog ticket change refl refl
