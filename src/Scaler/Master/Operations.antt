-- ===== src/Scaler/Master/Operations.antt =====
-- packages/scaler/src/master.ts: the master as a machine.
use extra.Prelude.{ℕ, Bool, false, Option}
use extra.Scaler.Master.{
  AllocationIdentity, ShardTopology, PlacementLocation, ScalerMaster, answer_request,
}
use extra.Scaler.Master.Identify.{fire_identify, sent_identify}
use extra.Scaler.Master.Agents.{AgentMessage, acknowledge, receive}
use extra.Scaler.Master.Calls.{
  launch, catch_launch, stop, post_message, time_out, accept, handshake_time_out, see_pong,
  check_hosts, disconnected, close,
}

-- What can happen: a call, something on a connection, a timer, the end of a wait.
pub data MasterAction : Type 0 where
  launches_worker :
      PlacementLocation
      → (worker : ℕ) → AllocationIdentity
      → ShardTopology
      → (id : ℕ) → MasterAction
  stops_worker : PlacementLocation → (worker : ℕ) → AllocationIdentity → (id : ℕ) → MasterAction
  posts : PlacementLocation → (worker : ℕ) → AllocationIdentity → MasterAction
  closes catches checks : MasterAction
  accepts : (header : Option ℕ) → MasterAction
  receives : (host : ℕ) → AgentMessage → MasterAction
  pongs disconnects handshake_timer : (host : ℕ) → MasterAction
  acknowledges : (host : ℕ) → (sends : Bool) → MasterAction
  request_timer send_fails : (request : ℕ) → MasterAction
  identify_timer : (bucket : ℕ) → MasterAction
  identify_sent : (bucket handle : ℕ) → (sends : Bool) → MasterAction

-- One action at the time `now`, when the connections of `is_open` are open.
unfoldable pub step : (is_open : ℕ → Bool) → (now : ℕ) → MasterAction → ScalerMaster → ScalerMaster
step is_open now (launches_worker target w identity topology id) s =
    (launch is_open now target w identity topology id s).0
step is_open now (stops_worker target w identity id) s = (stop is_open now target w identity id s).0
step is_open now (posts target w identity) s = (post_message is_open target w identity s).0
step is_open now closes s = close s
step is_open now catches s = catch_launch s
step is_open now checks s = check_hosts now s.connections s
step is_open now (accepts header) s = accept now header s
step is_open now (receives h m) s = receive now h m s
step is_open now (pongs h) s = see_pong now h s
step is_open now (disconnects h) s = disconnected h s
step is_open now (handshake_timer h) s = handshake_time_out now h s
step is_open now (acknowledges h sends) s = acknowledge h sends s
step is_open now (request_timer id) s = time_out now id s
step is_open now (send_fails id) s = answer_request id false s
step is_open now (identify_timer k) s = fire_identify is_open now k s
step is_open now (identify_sent k handle sends) s = sent_identify now k handle sends s
