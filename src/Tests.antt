-- ===== src/Tests.antt =====
-- The theorems at concrete inputs.
mod AmountTests
mod AuditTests
mod AuthTests
mod BreakerTests
mod CheckpointTests
mod DeliveryTests
mod DirectoryTests
mod DispatcherTests
mod EventTests
mod IdempotencyTests
mod JsonpathTests
mod ListingTests
mod ForwardedTests
mod ReceiveTests
mod ReplayTests
mod SignTests
mod SsrfTests
mod NormaliseTests
mod RatelimitTests
mod RedactTests
mod StatusTests
