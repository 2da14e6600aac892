-- ===== src/Rpc/Actions.antt =====
-- The actions of the two protocols (00_Base/src/ocpp/rpc/message.ts) and those for which a schema of
-- the payload is registered (00_Base/src/index.ts).
use rexharge_citrineos_core.Prelude.{String, List, [], ◌∷◌}

-- The keys of an enum, each the text of its value.
abbrev pub ocpp1_6_actions : List String
ocpp1_6_actions =
    "Authorize" ∷ "BootNotification" ∷ "CancelReservation" ∷ "ChangeAvailability"
    ∷ "ChangeConfiguration" ∷ "ClearCache" ∷ "ClearChargingProfile" ∷ "DataTransfer"
    ∷ "DiagnosticsStatusNotification" ∷ "FirmwareStatusNotification" ∷ "GetCompositeSchedule"
    ∷ "GetConfiguration" ∷ "GetDiagnostics" ∷ "GetLocalListVersion" ∷ "Heartbeat" ∷ "MeterValues"
    ∷ "RemoteStartTransaction" ∷ "RemoteStopTransaction" ∷ "ReserveNow" ∷ "Reset" ∷ "SendLocalList"
    ∷ "SetChargingProfile" ∷ "StartTransaction" ∷ "StatusNotification" ∷ "StopTransaction"
    ∷ "TriggerMessage" ∷ "UnlockConnector" ∷ "UpdateFirmware" ∷ []

abbrev pub ocpp2_0_1_actions : List String
ocpp2_0_1_actions =
    "Authorize" ∷ "BootNotification" ∷ "CancelReservation" ∷ "CertificateSigned"
    ∷ "ChangeAvailability" ∷ "ClearCache" ∷ "ClearChargingProfile" ∷ "ClearDisplayMessage"
    ∷ "ClearedChargingLimit" ∷ "ClearVariableMonitoring" ∷ "CostUpdated" ∷ "CustomerInformation"
    ∷ "DataTransfer" ∷ "DeleteCertificate" ∷ "FirmwareStatusNotification" ∷ "Get15118EVCertificate"
    ∷ "GetBaseReport" ∷ "GetCertificateStatus" ∷ "GetChargingProfiles" ∷ "GetCompositeSchedule"
    ∷ "GetDisplayMessages" ∷ "GetInstalledCertificateIds" ∷ "GetLocalListVersion" ∷ "GetLog"
    ∷ "GetMonitoringReport" ∷ "GetReport" ∷ "GetTransactionStatus" ∷ "GetVariables" ∷ "Heartbeat"
    ∷ "InstallCertificate" ∷ "LogStatusNotification" ∷ "MeterValues" ∷ "NotifyChargingLimit"
    ∷ "NotifyCustomerInformation" ∷ "NotifyDisplayMessages" ∷ "NotifyEVChargingNeeds"
    ∷ "NotifyEVChargingSchedule" ∷ "NotifyEvent" ∷ "NotifyMonitoringReport" ∷ "NotifyReport"
    ∷ "PublishFirmware" ∷ "PublishFirmwareStatusNotification" ∷ "ReportChargingProfiles"
    ∷ "RequestStartTransaction" ∷ "RequestStopTransaction" ∷ "ReservationStatusUpdate"
    ∷ "ReserveNow" ∷ "Reset" ∷ "SecurityEventNotification" ∷ "SendLocalList" ∷ "SetChargingProfile"
    ∷ "SetDisplayMessage" ∷ "SetMonitoringBase" ∷ "SetMonitoringLevel" ∷ "SetNetworkProfile"
    ∷ "SetVariableMonitoring" ∷ "SetVariables" ∷ "SignCertificate" ∷ "StatusNotification"
    ∷ "TransactionEvent" ∷ "TriggerMessage" ∷ "UnlockConnector" ∷ "UnpublishFirmware"
    ∷ "UpdateFirmware" ∷ []

-- The keys of OCPP1_6_CALL_SCHEMA_MAP, in their order.
abbrev pub ocpp1_6_call_schemas : List String
ocpp1_6_call_schemas =
    "Authorize" ∷ "BootNotification" ∷ "DataTransfer" ∷ "DiagnosticsStatusNotification"
    ∷ "FirmwareStatusNotification" ∷ "Heartbeat" ∷ "MeterValues" ∷ "StartTransaction"
    ∷ "StatusNotification" ∷ "StopTransaction" ∷ []

-- The keys of OCPP2_0_1_CALL_SCHEMA_MAP.
abbrev pub ocpp2_0_1_call_schemas : List String
ocpp2_0_1_call_schemas =
    "Authorize" ∷ "BootNotification" ∷ "ClearedChargingLimit" ∷ "DataTransfer"
    ∷ "FirmwareStatusNotification" ∷ "Get15118EVCertificate" ∷ "GetCertificateStatus" ∷ "Heartbeat"
    ∷ "LogStatusNotification" ∷ "MeterValues" ∷ "NotifyChargingLimit" ∷ "NotifyCustomerInformation"
    ∷ "NotifyDisplayMessages" ∷ "NotifyEVChargingNeeds" ∷ "NotifyEVChargingSchedule" ∷ "NotifyEvent"
    ∷ "NotifyMonitoringReport" ∷ "NotifyReport" ∷ "PublishFirmwareStatusNotification"
    ∷ "ReportChargingProfiles" ∷ "ReservationStatusUpdate" ∷ "SecurityEventNotification"
    ∷ "SignCertificate" ∷ "StatusNotification" ∷ "TransactionEvent" ∷ []

-- The keys of OCPP1_6_CALL_RESULT_SCHEMA_MAP.
abbrev pub ocpp1_6_call_result_schemas : List String
ocpp1_6_call_result_schemas =
    "CancelReservation" ∷ "ChangeAvailability" ∷ "ChangeConfiguration" ∷ "ClearCache"
    ∷ "ClearChargingProfile" ∷ "DataTransfer" ∷ "GetCompositeSchedule" ∷ "GetConfiguration"
    ∷ "GetDiagnostics" ∷ "GetLocalListVersion" ∷ "RemoteStartTransaction" ∷ "RemoteStopTransaction"
    ∷ "ReserveNow" ∷ "Reset" ∷ "SendLocalList" ∷ "SetChargingProfile" ∷ "TriggerMessage"
    ∷ "UnlockConnector" ∷ "UpdateFirmware" ∷ []

-- The keys of OCPP2_0_1_CALL_RESULT_SCHEMA_MAP.
abbrev pub ocpp2_0_1_call_result_schemas : List String
ocpp2_0_1_call_result_schemas =
    "CancelReservation" ∷ "CertificateSigned" ∷ "ChangeAvailability" ∷ "ClearCache"
    ∷ "ClearChargingProfile" ∷ "ClearDisplayMessage" ∷ "ClearVariableMonitoring"
    ∷ "CustomerInformation" ∷ "CostUpdated" ∷ "DataTransfer" ∷ "DeleteCertificate" ∷ "GetBaseReport"
    ∷ "GetChargingProfiles" ∷ "GetCompositeSchedule" ∷ "GetLocalListVersion" ∷ "GetLog"
    ∷ "GetMonitoringReport" ∷ "GetReport" ∷ "GetTransactionStatus" ∷ "InstallCertificate"
    ∷ "GetCertificateStatus" ∷ "GetInstalledCertificateIds" ∷ "GetVariables"
    ∷ "RequestStartTransaction" ∷ "RequestStopTransaction" ∷ "ReserveNow" ∷ "Reset"
    ∷ "SendLocalList" ∷ "SetChargingProfile" ∷ "SetDisplayMessage" ∷ "SetMonitoringBase"
    ∷ "SetMonitoringLevel" ∷ "SetNetworkProfile" ∷ "SetVariableMonitoring" ∷ "SetVariables"
    ∷ "TriggerMessage" ∷ "UnlockConnector" ∷ "UnpublishFirmware" ∷ "UpdateFirmware" ∷ []
