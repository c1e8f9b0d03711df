-- ===== src/ScaleSet/Errors.antt =====
-- internal/scaleset/supervisor.go, isPermanentSessionError and the HTTP status tests.
-- An error is its text with what errors.As and errors.Is find in its chain.
use multirunner.Common.{Bool, false, ◌||◌, ◌++◌, Text, codes, contains}

pub record Err : Type 0 where
  pub permanent : Bool  -- a permanentSessionError is in the chain
  pub invalid_url : Bool  -- scaleset.ErrInvalidGitHubConfigURL is
  pub not_found : Bool  -- scaleset.RunnerNotFoundError is
  pub message : Text

-- fmt.Errorf("<prefix>%w", err): the chain is kept and the text is prefixed.
unfoldable pub wrap : Text → Err → Err
wrap prefix e = record e { message = prefix ++ e.message }

-- errors.New(text), fmt.Errorf(text) with no %w
unfoldable pub new_error : Text → Err
new_error t = record { permanent = false; invalid_url = false; not_found = false; message = t }

-- errors.Join(a, b) for two errors that are not nil
unfoldable pub join : Err → Err → Err
join a b = record {
  permanent = a.permanent || b.permanent;
  invalid_url = a.invalid_url || b.invalid_url;
  not_found = a.not_found || b.not_found;
  message = a.message ++ (codes "\n" ++ b.message);
}

unfoldable pub is_http_status_message : Text → Text → Bool
is_http_status_message message status =
    contains message (codes "status=\"" ++ (status ++ codes "\" "))
    || contains message (codes "status code: " ++ status)
    || contains message (codes "status code " ++ status)

unfoldable pub is_http_status : Err → Text → Bool
unfolding is_http_status_message
is_http_status e status = is_http_status_message e.message status

-- The loop over "400" and "422" is written out. nil is no value of `Err`: its callers test it.
unfoldable pub is_permanent_session_error : Err → Bool
unfolding is_http_status_message
is_permanent_session_error e =
    e.permanent
    || e.invalid_url
    || is_http_status_message e.message (codes "400")
    || is_http_status_message e.message (codes "422")
