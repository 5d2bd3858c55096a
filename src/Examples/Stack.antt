-- ===== src/Examples/Stack.antt =====
-- The TCP stack at a concrete connection.
use halo.Base.{ℕ, refl, arith, inr}
use halo.Stack.Buffer.{peek}
use halo.Stack.Segment.{input}
use halo.Stack.Table.{new_stack}
use halo.Stack.Ports.{take_port}
use halo.Stack.Ports.Search.{Chosen, take_port-Chosen}
use halo.Stack.Diagram.{Reach}
use halo.Stack.Diagram.Rounds.{arrives, Step-Follows}
use halo.Stack.Sender.{IsSound}
use halo.Stack.Sender.Rounds.{Step-IsSound}
use halo.Stack.Receiver.{Extends}
use halo.Stack.Receiver.Segments.{input-Extends}
use halo.Stack.Transfer.{Ready, Expects, Transferred, pump-Transferred}
use halo.Examples.Data.{lan_host-IsIpv4Addr, wan_host-IsIpv4Addr}
use halo.Examples.Connections.{
  server, client_env, server_env, dialing_env, syn_ack, overlapping, free_addr, dialing-IsSending,
  client-IsSending, server-IsReceiving, empty,
}

client-Ready : Ready client_env
unfolding peek
client-Ready = record {
  sending = client-IsSending;
  may_send = refl;
  idle = refl;
  some_data = omega arith;
  open_window = omega arith;
  segment_size = omega arith;
  bytes = omega arith;
  awaited = omega arith;
  local_port = omega arith;
  remote_port = omega arith;
  local_ip = lan_host-IsIpv4Addr;
  remote_ip = wan_host-IsIpv4Addr;
}

server-Expects : Expects client_env server_env
server-Expects = record {
  state = refl;
  reading = refl;
  no_fin = refl;
  unsent_fin = refl;
  receiving = server-IsReceiving;
  in_step = refl;
  not_ahead = refl;
  room = omega (arith, empty);
}

pump-Transferred_example : Transferred 5 6 client_env server_env
pump-Transferred_example = pump-Transferred 5 6 client_env server_env client-Ready server-Expects

Step-IsSound_example : IsSound (input syn_ack 5 dialing_env).conn
Step-IsSound_example =
    Step-IsSound (arrives syn_ack 5 dialing_env (omega arith) (omega arith)) (inr dialing-IsSending)

Step-Follows_example : Reach dialing_env.conn.state (input syn_ack 5 dialing_env).conn.state
Step-Follows_example = Step-Follows (arrives syn_ack 5 dialing_env (omega arith) (omega arith))

input-Extends_example : (n : ℕ) × Extends overlapping server (input overlapping 6 server_env).conn n
input-Extends_example = input-Extends overlapping 6 server_env server-IsReceiving (omega arith) refl

take_port-Chosen_example : Chosen free_addr (new_stack 0) (take_port free_addr (new_stack 0))
unfolding new_stack
take_port-Chosen_example = take_port-Chosen free_addr (new_stack 0) (omega arith) refl
