-- ===== src/Resume.antt =====
-- How the parts work together in a download that is interrupted and resumed: what
-- src/dtp_client_posix_session_hooks.c asks for, what src/dtp_server.c sends for it, and what the
-- segment list then holds.
pub mod Numbers
pub mod Missing
pub mod Completion
pub mod Exhausted
