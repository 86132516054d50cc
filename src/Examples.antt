-- ===== src/Examples.antt =====
-- The theorems at concrete inputs: a toy cipher, a backend with one blob, small tables and requests.
pub mod Toy
pub mod CryptoRuns
pub mod StoreRuns
pub mod RequestRuns
pub mod ServiceRuns
pub mod BrowserRuns
pub mod SigV4Runs
pub mod UploadRuns
pub mod ConfigRuns
pub mod AdminRuns
