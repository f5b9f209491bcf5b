-- ===== src/Worker/Delivery/Provider.antt =====
-- apps/worker/src/provider.ts: the providers of notifications. What the HTTP call answers and the way
-- an identifier is written come from outside.
use bf_techops.Prelude.{Bool, not, Option, none, some, [], ◌++◌, if◌then◌else◌}
use bf_techops.Js.{Text, codes}
use bf_techops.Wire.{Uuid, Time, EventPayload}
use bf_techops.Worker.Config.{ProviderKind, WorkerConfig}
use bf_techops.Worker.Fault.{Fault, Run, done, threw}

-- The answer of the provider's server: its status, and the header `x-provider-request-id`.
pub record HttpAnswer : Type 0 where
  pub ok : Bool
  pub status_text : Text
  pub provider_request_id : Option Text

-- What the processor takes from outside for one job.
pub record DeliveryEnv : Type 0 where
  pub now : Time
  pub uuid_text : Uuid → Text
  -- `fetch(url, …)` with this key and event: a call that fails throws
  pub fetch : Text → Text → EventPayload → Run HttpAnswer
  -- the error of a value that does not fit its column
  pub refused : Fault

-- The key and the URL are those that the configuration has if the provider is a webhook.
abbrev pub text_of : Option Text → Text
text_of none = []
text_of (some s) = s

unfoldable pub log_send : DeliveryEnv → EventPayload → Run Text
log_send env event = done (codes "log:" ++ env.uuid_text event.event_id)

abbrev pub reference_or : Text → Option Text → Text
reference_or id none = id
reference_or id (some reference) = reference

-- A code is `PROVIDER_HTTP_` and the status.
abbrev pub answer_of : DeliveryEnv → EventPayload → Run HttpAnswer → Run Text
answer_of env event (threw fault) = threw fault
answer_of env event (done response) =
    if not response.ok
    then threw record {
      message = codes "Notification provider returned HTTP " ++ response.status_text;
      code = some (codes "PROVIDER_HTTP_" ++ response.status_text);
    }
    else done (reference_or (env.uuid_text event.event_id) response.provider_request_id)

unfoldable pub webhook_send : DeliveryEnv → Text → Text → EventPayload → Run Text
webhook_send env url api_key event = answer_of env event (env.fetch url api_key event)

-- `createProvider(config).send(event)`
abbrev pub send_by : DeliveryEnv → WorkerConfig → ProviderKind → EventPayload → Run Text
send_by env config ProviderKind.webhook event =
    webhook_send env (text_of config.provider_url) (text_of config.provider_api_key) event
send_by env config ProviderKind.log event = log_send env event

unfoldable pub send : DeliveryEnv → WorkerConfig → EventPayload → Run Text
send env config event = send_by env config config.provider event
