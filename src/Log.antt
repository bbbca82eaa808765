-- ===== src/Log.antt =====
-- src/core/ngx_log.c and ngx_log.h, with ngx_strerror of src/os/unix/ngx_errno.c and ngx_slprintf.
-- `Text` prints into a buffer, `Start` opens the log, `Core` logs by the level.
pub mod Text
pub mod Start
pub mod Errno
pub mod Line
pub mod Names
pub mod Path
pub mod Core
pub mod Silent
pub mod Gates
mod Tests
