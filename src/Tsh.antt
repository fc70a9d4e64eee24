-- ===== src/Tsh.antt =====
-- The tiny shell: lab6-shelllab6-qinlinj/tsh_helper.c (job list, command line parser) and
-- lab6-shelllab6-qinlinj/tsh.c (evaluation, signal handlers).
pub mod Contract
mod Tests
pub mod State
pub mod Jobs
pub mod Parse
pub mod Shell
