-- ===== src/Hooks/LongNames.antt =====
-- src/dtp_client_posix_session_hooks.c: the names of the files that keep a session.
use libdtp.Session.{Session}
