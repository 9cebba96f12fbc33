-- ===== src/Vm.antt =====
-- src/vm: what the virtual machine makes of a compiled function.
pub mod Loads
pub mod Upvalues
pub mod Arity
pub mod Bundled
mod Tests
