-- ===== src/Tests.antt =====
-- Runs of the model at concrete inputs, and the theorems at inputs that meet their hypotheses.
mod Fixtures
mod PaymentTests
mod DomainTests
mod InvoiceTests
mod RelayTests
mod WorkerTests
mod AuthTests
mod ConfigTests
mod ScriptTests
mod ReportTests
