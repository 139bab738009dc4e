-- ===== src/Pool/Defaults.antt =====
-- src/dtp.c: the default hooks, the user context, and the descriptions of the errors.
use Prim.Native.String.{String}
use libdtp.Common.{ℕ, ◌≡◌, refl, List, [], ◌∷◌, Bool, true, Option, some, get_elem?}
use libdtp.Session.{
  Errno, no_err, einval, enomore_sessions, esession_not_found, connection_failed, malloc_failed,
  not_implemented, session_exhausted, Session, Packet,
}

-- The hooks of `default_session_hooks`, which log their name.
unfoldable pub default_on_session_start : Session → Session
default_on_session_start s = s

unfoldable pub default_on_data_packet : Session → Packet → Bool × Session
default_on_data_packet s p = (true, s)

unfoldable pub default_on_session_end : Session → Session
default_on_session_end s = s

unfoldable pub default_on_serialize : Session → ℕ → Session
default_on_serialize s ctx = s

unfoldable pub default_on_deserialize : Session → ℕ → Session
default_on_deserialize s ctx = s

unfoldable pub default_on_session_release : Session → Session
default_on_session_release s = s

unfoldable pub dtp_session_set_user_ctx : Session → ℕ → Session
dtp_session_set_user_ctx s user_context = record s { user_context = user_context }

unfoldable pub dtp_session_get_user_ctx : Session → ℕ
dtp_session_get_user_ctx s = s.user_context

-- `_error_strs`
abbrev pub error_strs : List String
error_strs =
    "No error" ∷ "Invalid argument" ∷ "No more static sessions available"
    ∷ "Given session not found" ∷ "Could not connect"
    ∷ "Could not allocate a mandatory piece of memory" ∷ "Not implemented"
    ∷ "No more data available in current session" ∷ []

-- The values of `dtp_errno_t`.
abbrev pub errno_value : Errno → ℕ
errno_value no_err = 0
errno_value einval = 1
errno_value enomore_sessions = 2
errno_value esession_not_found = 3
errno_value connection_failed = 4
errno_value malloc_failed = 5
errno_value not_implemented = 6
errno_value session_exhausted = 7

-- `none` is a read past the table.
unfoldable pub dtp_strerror : Errno → Option String
dtp_strerror err = get_elem? error_strs (errno_value err)

-- Every error has a description.
pub dtp_strerror-total : (err : Errno) → (text : String) × (dtp_strerror err ≡ some text)
unfolding dtp_strerror
dtp_strerror-total no_err = (_, refl)
dtp_strerror-total einval = (_, refl)
dtp_strerror-total enomore_sessions = (_, refl)
dtp_strerror-total esession_not_found = (_, refl)
dtp_strerror-total connection_failed = (_, refl)
dtp_strerror-total malloc_failed = (_, refl)
dtp_strerror-total not_implemented = (_, refl)
dtp_strerror-total session_exhausted = (_, refl)

-- A context that is set is the one that is read.
pub dtp_session_get_user_ctx_set :
    (s : Session) (c : ℕ) → dtp_session_get_user_ctx (dtp_session_set_user_ctx s c) ≡ c
unfolding dtp_session_get_user_ctx dtp_session_set_user_ctx
dtp_session_get_user_ctx_set s c = refl
