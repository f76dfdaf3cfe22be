-- ===== src/Tests.antt =====
-- A small instance of what the package calls, and the theorems at concrete states.
pub mod Instance
mod Examples
pub mod Calls
mod RowCalls
mod OpenerCalls
mod OwnershipCalls
pub mod ArgumentCalls
mod ScanCalls
pub mod StatementCalls
mod TxCalls
pub mod SingleCalls
mod FacadeCalls
