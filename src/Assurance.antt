-- ===== src/Assurance.antt =====
-- app/modules/assurance: cases with their comments, and the saved queries of the workbench.
pub mod Payloads
pub mod Service
pub mod Cases
pub mod Routes
pub mod Comments
pub mod Reads
pub mod Recon
pub mod Summary
pub mod Listing
