-- ===== src/Connection/Accept.antt =====
-- core/connection: accepting connections (accept_handler.cpp). What the acceptor of Boost.Asio reports
-- is an argument of each call.
use network_application.Base.{Bool, true, false, List, [], ◌∷◌, ◌++◌, map, if◌then◌else◌}
use network_application.Errors.Codes.{Code}
use network_application.Errors.{check_error}
use network_application.Logger.{Entry, lit}
use network_application.Network.{IoMode, sync, async}

pub data Event : Type 0 where
  logs : Entry → Event
  errors : Code → Event
  accepts : Code → Event
  closes : Code → Event

-- The members of AcceptHandler: which callbacks are set, and whether the acceptor is open.
pub record AcceptHandler : Type 0 where
  pub on_accept : Bool
  pub on_close : Bool
  pub on_error : Bool
  pub is_open : Bool

-- AcceptHandler(io, endpoint) with setOptionAcceptor: the acceptor is opened, bound and listens; the
-- code of the bind is logged and nothing else is done with it.
unfoldable pub accept_handler : Code → AcceptHandler × List Event
unfolding check_error
accept_handler bound = (
  record { on_accept = false; on_close = false; on_error = false; is_open = true },
  map logs (check_error bound (lit "AcceptHandler::setOptionAcceptor" ∷ []) false).logged,
)

-- setOnAccept
unfoldable pub set_on_accept : AcceptHandler → Bool → AcceptHandler
set_on_accept h b = record h { on_accept = b }

-- setOnClose
unfoldable pub set_on_close : AcceptHandler → Bool → AcceptHandler
set_on_close h b = record h { on_close = b }

-- setOnError
unfoldable pub set_on_error : AcceptHandler → Bool → AcceptHandler
set_on_error h b = record h { on_error = b }

unfoldable pub when : Bool → Event → List Event
when b e = if b then e ∷ [] else []

-- sync_accept; `ec` is what the promise was given.
unfoldable pub sync_accept : AcceptHandler → Code → List Event
unfolding check_error when
sync_accept h ec =
    let seen = check_error ec (lit "AcceptHandler::accept.sync" ∷ []) false in
    map logs seen.logged
    ++ ((if seen.result then when h.on_error (errors ec) else []) ++ when h.on_accept (accepts ec))

-- The completion handler of async_accept.
unfoldable pub async_accept : AcceptHandler → Code → List Event
unfolding check_error when
async_accept h ec =
    let seen = check_error ec (lit "AcceptHandler::accept.async" ∷ []) false in
    map logs seen.logged
    ++ ((if seen.result then when h.on_error (errors ec) else []) ++ when h.on_accept (accepts ec))

-- accept
unfoldable pub accept : AcceptHandler → IoMode → Code → List Event
unfolding sync_accept async_accept
accept h sync ec = sync_accept h ec
accept h async ec = async_accept h ec

-- close; the codes are those of cancel and of close.
unfoldable pub close : AcceptHandler → Code → Code → AcceptHandler × List Event
unfolding check_error when
close h cancelled closed =
    if h.is_open
    then (
      record h { is_open = false },
      map logs (check_error cancelled (lit "AcceptHandler::cancel" ∷ []) false).logged
          ++ (when h.on_close (closes closed)
              ++ map logs (check_error closed (lit "AcceptHandler::close" ∷ []) false).logged),
    )
    else (h, [])
