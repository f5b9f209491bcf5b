-- ===== src/Audit/Laws.antt =====
-- `record` of AuditService when it went through.
use bf_techops.Prelude.{◌≡◌, ap, ◌∷◌, sym}
use bf_techops.Failure.{ok}
use bf_techops.Wire.{Uuid}
use bf_techops.Persistence.Database.{Env, World}
use bf_techops.Persistence.Insert.{insert_audit_event}
use bf_techops.Persistence.Inversion.{refusal-ok, after_draw}
use bf_techops.Audit.{AuditRecordInput, audit_row, record_audit}

pub record_audit-written :
    (env : Env) (input : AuditRecordInput) (w : World) {u : Unit {0}} {w' : World}
    → record_audit env input w ≡ (ok u, w')
    → (id : Uuid) × (w'.db ≡ record w.db { audit_events = audit_row env input id ∷ w.audit_events })
unfolding record_audit insert_audit_event
record_audit-written env input w h =
    let id = env.random_uuid w.drawn in
    (id, sym (ap (λ (v : World). v.db) (refusal-ok _ _ _ _ (after_draw env _ h)).1))
