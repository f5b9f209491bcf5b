-- ===== src/Audit.antt =====
-- apps/api/src/audit/audit.service.ts: the append-only audit trail. `newest` is the query of the
-- lists of the API: the rows of some merchants, the latest first, at most 100 of them.
pub mod Laws
use bf_techops.Prelude.{ℕ, String, Option, none, some, List, min, max, take}
use bf_techops.Prelude.Table.{select, order_desc}
use bf_techops.Js.{Text}
use bf_techops.Wire.{Uuid, Time, Subject, AuditDetails, no_details, ActorTokenPayload}
use bf_techops.Persistence.Entities.{AuditEventEntity}
use bf_techops.Persistence.Database.{Database, Env, Action, ◌>>=◌, draw}
use bf_techops.Persistence.Insert.{insert_audit_event}
use bf_techops.MerchantScope.Defs.{has, authorized_merchant_ids}

pub record AuditRecordInput : Type 0 where
  pub merchant_id : Uuid
  pub actor_subject : Subject
  pub action : String
  pub resource_type : String
  pub resource_id : Uuid
  pub request_id : Option Text
  pub details : Option AuditDetails

-- `input.details ?? {}`
abbrev pub details_or_none : Option AuditDetails → AuditDetails
details_or_none none = no_details
details_or_none (some d) = d

abbrev pub audit_row : Env → AuditRecordInput → Uuid → AuditEventEntity
audit_row env input id = record {
  id = id;
  merchant_id = input.merchant_id;
  actor_subject = input.actor_subject;
  action = input.action;
  resource_type = input.resource_type;
  resource_id = input.resource_id;
  request_id = input.request_id;
  details = details_or_none input.details;
  created_at = env.now;
}

-- `AuditService.record`
unfoldable pub record_audit : Env → AuditRecordInput → Action (Unit {0})
record_audit env input = do id ← draw env; insert_audit_event (audit_row env input id)

-- `Math.min(Math.max(limit, 1), 100)`; a limit below 0 is 0 here.
abbrev pub page_size : ℕ → ℕ
page_size limit = min (max limit 1) 100

-- `find({ where: { merchantId: In(merchantIds) }, order: { createdAt: "DESC" }, take })`
unfoldable pub newest {ℓ} : {A : Type ℓ} → (A → Uuid) → (A → Time) → List Uuid → ℕ → List A → List A
newest merchant_of created ids limit rows =
    take (page_size limit) (order_desc created (select (λ r. has ids (merchant_of r)) rows))

-- `AuditService.list`
unfoldable pub list_audit : Database → ActorTokenPayload → ℕ → List AuditEventEntity
list_audit db actor limit =
    newest (λ r. r.merchant_id) (λ r. r.created_at)
      (authorized_merchant_ids db actor.actor_merchant_id) limit db.audit_events
