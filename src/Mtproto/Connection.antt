-- ===== src/Mtproto/Connection.antt =====
-- internal/storage/mtproto/mtproto.go: Open and Close.
use telang.Common.{
  ◌≡◌, Bool, false, ◌||◌, Option, none, some, List, [], ◌∷◌, Str, ℤ, is_zero, if◌then◌else◌, Result,
  ok, err,
}
use telang.S3.Router.{is_empty}

-- `Options`
pub record Options : Type 0 where
  pub api_id : ℤ
  pub api_hash : Str
  pub session_file : Str
  pub channel_id : ℤ
  pub channel_access_hash : ℤ

-- `tg.InputChannel` and `tg.InputPeerChannel`, which hold the same two numbers.
pub record InputChannel : Type 0 where
  pub channel_id : ℤ
  pub access_hash : ℤ

-- `Backend`: `api` is what the callback of `Run` sets (the client's API with the channel), and is
-- nil before.
pub record Backend : Type 0 where
  pub opts : Options
  pub api : Option InputChannel

-- How far `telegram.Client.Run` gets: it returns before it calls the callback, or the callback sees
-- an error of the status call, a session that is not authorized, or one that is.
pub data ClientRun : Type 0 where
  no_callback status_failed not_authorized authorized : ClientRun

pub data OpenError : Type 0 where
  api_required session_required channel_required auth_status unauthorized canceled : OpenError

-- What the callback sends into `ready`, which has room for it, before `Run` returns or waits.
unfoldable pub sent : ClientRun → List (Option OpenError)
sent no_callback = []
sent status_failed = some auth_status ∷ []
sent not_authorized = some unauthorized ∷ []
sent authorized = none ∷ []

-- `<-ready`: the first value sent, and the zero value, nil, of the closed channel if there is none.
unfoldable pub receive : List (Option OpenError) → Option OpenError
receive [] = none
receive (e ∷ es) = e

-- The backend behind the callback, which sets the API of an authorized session only.
unfoldable pub connected : Options → ClientRun → Backend
connected opts authorized = record {
  opts = opts;
  api = some (record { channel_id = opts.channel_id; access_hash = opts.channel_access_hash });
}
connected opts run = record { opts = opts; api = none }

-- The first case of the `select`.
unfoldable pub ready : Options → ClientRun → Result OpenError Backend
unfolding sent receive connected
ready opts run = elim (receive (sent run)) [ none ↦ ok (connected opts run) | some e ↦ err e ]

-- `Open`. `takes_parent` says that the `select` takes the case of the parent context: that has ended
-- then, and `ready` may have a value or be closed as well, since the `select` is free to choose
-- between two cases that can proceed.
unfoldable pub open_backend : Options → Bool → ClientRun → Result OpenError Backend
unfolding ready
open_backend opts takes_parent run =
    if is_zero opts.api_id || is_empty opts.api_hash
    then err api_required
    else if is_empty opts.session_file
    then err session_required
    else if is_zero opts.channel_id
    then err channel_required
    else if takes_parent
    then err canceled
    else ready opts run

-- What `Run` returned.
pub data RunError : Type 0 where
  no_error context_canceled run_failure : RunError

-- `Close`
unfoldable pub close_backend : RunError → RunError
close_backend context_canceled = no_error
close_backend e = e

-- The options that `Open` asks for.
abbrev pub IsComplete : Options → Type 0
IsComplete opts =
    ((is_zero opts.api_id || is_empty opts.api_hash) ≡ false)
    × (is_empty opts.session_file ≡ false)
    × (is_zero opts.channel_id ≡ false)
