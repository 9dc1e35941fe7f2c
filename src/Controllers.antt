-- ===== src/Controllers.antt =====
-- The controllers: each route with its guards and the service's method that it calls. Paths, statuses
-- of success and the validation of a body are the framework's.
pub mod Environment
pub mod Supervision
pub mod Administration
pub mod Desk
pub mod Personal
pub mod Public
pub mod Requests
pub mod Refusals
pub mod Farewells
