-- ===== src/App.antt =====
-- The Application Module, components/app_module/src: command dispatch, provisioning, actuation and
-- the task loop.
pub mod State
pub mod Actuation
pub mod Provision
pub mod Dispatch
pub mod Button
pub mod Loop
pub mod Start
