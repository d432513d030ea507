-- ===== src/Access/Lifecycle.antt =====
-- apps/api/src/routes/enroll.ts, apps/api/src/routes/parent-setup.ts,
-- apps/api/src/routes/parent-devices.ts and apps/api/src/routes/credential.ts: the life of a device's row
-- and of its codes.
pub mod Codes
pub mod Devices
pub mod Registration
pub mod Committing
pub mod Enrolling
pub mod Managing
pub mod Renewing
pub mod Rotating
pub mod Observing
pub mod Steps
