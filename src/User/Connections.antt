-- ===== src/User/Connections.antt =====
-- internal/grain/user/state.go and user.go: the connections of a user's grain, their registration and
-- eviction, and the fan-out to them. This is the other half of `userState`; no command of the first
-- half reads it. A PID is the one of the connection's module.
use blabby.Prelude.{List, [], ◌∷◌, ◌++◌, Option, none, some, Bool, true, false, if◌then◌else◌}
use blabby.Text.{Bytes, codes}
use blabby.Domain.Refs.{is_blank}
use blabby.ErrCode.{invalid_request}
use blabby.Wire.{ErrorDetail, err_detail}
use blabby.Map.Named.{lookup, insert, delete, keys, sort}
use blabby.Connection.Messages.{Pid}

abbrev pub Connections : Type 0
Connections = List (Bytes × Pid)

-- `pidKey`
unfoldable pub pid_key : Pid → Bytes
pid_key pid = pid.address ++ (codes "/" ++ pid.id)

-- `addConnection` and `removeConnection`
unfoldable pub add_connection : Pid → Connections → Connections
unfolding pid_key insert
add_connection pid connections = insert (pid_key pid) pid connections

unfoldable pub remove_connection : Pid → Connections → Connections
unfolding pid_key delete
remove_connection pid connections = delete (pid_key pid) connections

unfoldable pub look_up_all : List Bytes → Connections → List (Option Pid)
unfolding lookup
look_up_all [] connections = []
look_up_all (k ∷ ks) connections = lookup k connections ∷ look_up_all ks connections

-- `connectionPIDs`; a key that is missing would read as nil.
unfoldable pub connection_pids : Connections → List (Option Pid)
unfolding look_up_all sort keys
connection_pids connections = look_up_all (sort (keys connections)) connections

-- `RegisterConnectionResponse`
pub record RegisterResponse : Type 0 where
  pub error : Option ErrorDetail
  pub grain_pid : Option Pid

-- What a handler leaves: the response, the connections, and the PIDs that it asks to watch.
pub record Registered : Type 0 where
  pub response : RegisterResponse
  pub connections : Connections
  pub watched : List Pid

abbrev pub is_complete : Pid → Bool
is_complete pid = if is_blank pid.address then false else (if is_blank pid.id then false else true)

-- `RegisterConnection` of the grain `self`; a nil requester is none.
unfoldable pub register_connection : Pid → Option Pid → Connections → Registered
unfolding add_connection
register_connection self none connections = record {
  response = record {
    error = some (err_detail invalid_request "requester_pid is required");
    grain_pid = none;
  };
  connections = connections;
  watched = [];
}
register_connection self (some pid) connections =
    if is_complete pid
    then record {
      response = record { error = none; grain_pid = some self };
      connections = add_connection pid connections;
      watched = pid ∷ [];
    }
    else record {
      response = record {
        error =
            some (
              err_detail invalid_request "requester_pid.address and requester_pid.id are required");
        grain_pid = none;
      };
      connections = connections;
      watched = [];
    }

-- `ReceiveDefault`: a death-watch notification, or anything else.
unfoldable pub receive_default : Option Pid → Connections → Connections
unfolding remove_connection
receive_default none connections = connections
receive_default (some who) connections = remove_connection who connections

-- `fanOut`: what is sent to whom, in order.
unfoldable pub fan_out : {M : Type 0} → List (Option Pid) → M → List (Option Pid × M)
fan_out [] message = []
fan_out (pid ∷ pids) message = (pid, message) ∷ fan_out pids message

-- `ForwardMessage` and `NotifyRoomEvent`, which differ in the message alone.
unfoldable pub deliver : {M : Type 0} → M → Connections → List (Option Pid × M)
unfolding connection_pids fan_out
deliver message connections = fan_out (connection_pids connections) message
