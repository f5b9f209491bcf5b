-- ===== src/Tests/Fixtures.antt =====
-- A small database: a root merchant 1 with a child 2, whose store 20 has issued invoice 50.
use bf_techops.Prelude.{ℕ, ◌+◌, ◌*◌, true, none, some, [], ◌∷◌}
use bf_techops.Js.{Text, codes, nat}
use bf_techops.Wire.{
  issued, subject_merchant, ActorTokenPayload, payment_captured, PaymentWebhookDto,
}
use bf_techops.Persistence.Entities.{MerchantEntity, StoreEntity, InvoiceEntity}
use bf_techops.Persistence.Database.{Database, Env, World}
use bf_techops.Config.{ApiConfig}

-- Texts of one to a few letters, so that a sum of code units tells them apart.
abbrev weight : Text → ℕ
weight [] = 0
weight (c ∷ s) = c + 256 * weight s

abbrev pub env : Env
env = record {
  now = 10_000_000_000;
  random_uuid = λ n. 1000 + n;
  sha256 = λ s. 7;
  collation = weight;
  hmac_sha256 = λ secret s. 9;
  uuid_text = λ id. id ∷ [];
  to_number = λ s. nat 10_000_000;
}

abbrev pub secret : Text
secret = codes "payment-webhook-secret-at-least-32"

abbrev pub config : ApiConfig
config = record {
  node_env = codes "test";
  port = 8080;
  platform_api_key = codes "platform-api-key";
  actor_token_secret = none;
  actor_jwks_url = none;
  actor_issuer = none;
  actor_audience = none;
  payment_provider = codes "pay";
  payment_webhook_secret = secret;
  payment_webhook_tolerance_seconds = 300;
  release_version = codes "1";
}

abbrev pub root_merchant : MerchantEntity
root_merchant = record {
  id = 1;
  parent_merchant_id = none;
  name = codes "root";
  active = true;
  created_at = 0;
  updated_at = 0;
}

abbrev pub child_merchant : MerchantEntity
child_merchant = record root_merchant { id = 2; parent_merchant_id = some 1 }

abbrev pub store : StoreEntity
store = record {
  id = 20;
  merchant_id = 2;
  code = codes "S";
  name = codes "Store";
  timezone = codes "Asia/Kolkata";
  active = true;
  created_at = 0;
}

abbrev pub invoice : InvoiceEntity
invoice = record {
  id = 50;
  merchant_id = 2;
  store_id = 20;
  created_by = subject_merchant 1;
  customer_name = codes "Ada";
  customer_contact = codes "ada@example.com";
  currency = codes "INR";
  subtotal_minor = 1000;
  discount_minor = 0;
  tax_rate_basis_points = 1800;
  tax_minor = 180;
  total_minor = 1180;
  status = issued;
  issued_at = 5;
  version = 1;
  created_at = 5;
  updated_at = 5;
}

abbrev pub db : Database
db = record {
  merchants = root_merchant ∷ child_merchant ∷ [];
  stores = store ∷ [];
  invoices = invoice ∷ [];
  invoice_lines = [];
  idempotency_records = [];
  outbox_events = [];
  delivery_attempts = [];
  payments = [];
  refunds = [];
  payment_webhook_receipts = [];
  audit_events = [];
}

abbrev pub world : World
world = record { db = db; drawn = 0; metrics = [] }

abbrev pub actor : ActorTokenPayload
actor = record { actor_merchant_id = 1; roles = []; exp = 1; subject = none }

abbrev pub signature : Text
signature = codes "aaaaaaaaaaaaaaaaaaaaaaaaaaaaaaaaaaaaaaaaaaaaaaaaaaaaaaaaaaaaaaaa"

-- A payment of the whole invoice.
abbrev pub capture_dto : PaymentWebhookDto
capture_dto = record {
  provider_event_id = codes "e1";
  event_type = payment_captured;
  provider_payment_id = codes "p1";
  provider_refund_id = none;
  invoice_id = 50;
  amount_minor = 1180;
  currency = codes "INR";
  occurred_at = 10_000_000_000;
}
