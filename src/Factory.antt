-- ===== src/Factory.antt =====
-- modules/shared/factory: the factories that make objects by name. Names has the parser of names
-- such as `type(parameters)`, Registry the functions that are registered.
pub mod Names
pub mod Registry
mod Tests
