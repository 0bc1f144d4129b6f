-- ===== src/Weighttp/Run.antt =====
-- The runs of `client_state_machine` (weighttp-master/src/client.c) as a step relation.
use reading_comment.Common.{◌≤◌, some, ◌≡◌, length}
use reading_comment.Weighttp.Types.{Session}
use reading_comment.Weighttp.Machine.{
  SocketResult, ConnectResult, WriteResult, ReadResult, received, Pc, at_switch, at_socket,
  at_first_connect, at_connect, at_write, at_read, at_error, at_end, room, on_switch, on_socket,
  on_first_connect, on_connect, on_write, on_read, on_error, on_end,
}

-- `read` returns no more bytes than it was asked for.
abbrev pub Fits : ReadResult → Session → Type 0
Fits (received bs) x = length bs ≤ room x.client
Fits _ x = Unit

-- One step of the state machine, for one result of its system call.
pub data Step : Pc × Session → Pc × Session → Type 0 where
  switch : {x : Session} → Step (at_switch, x) (on_switch x)
  socket : {x : Session} (r : SocketResult) → Step (at_socket, x) (on_socket r x)
  first_connect :
      {x : Session} (r : ConnectResult) → Step (at_first_connect, x) (on_first_connect r x)
  connect : {x : Session} (r : ConnectResult) → Step (at_connect, x) (on_connect r x)
  write : {x : Session} (r : WriteResult) → Step (at_write, x) (on_write r x)
  read :
      {x : Session} (r : ReadResult) {y : Pc × Session}
      → Fits r x
      → on_read r x ≡ some y
      → Step (at_read, x) y
  error : {x : Session} → Step (at_error, x) (on_error x)
  end : {x : Session} → Step (at_end, x) (on_end x)

-- Any number of steps.
pub data Steps (m : Pc × Session) : Pc × Session → Type 0 where
  here : Steps m m
  next : {n o : Pc × Session} → Steps m n → Step n o → Steps m o
