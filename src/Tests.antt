-- ===== src/Tests.antt =====
-- Runs of the models of hald/device.c and hald/device_store.c on concrete devices, stores and locks.
mod Fixture
mod Locks
mod Stores
mod Access
mod Devices
mod Rules
mod Service
mod Helpers
