-- ===== src/Examples/Connections.antt =====
-- Two ends of a connection of the TCP stack, and segments between them.
use halo.Base.{ℕ, true, [], ◌∷◌, ◌≡◌, refl, arith, length, length-replicate, replicate, inl, inr}
use halo.Protocol.Tcp.{TcpPkt}
use halo.Stack.Buffer.{ByteBuffer}
use halo.Stack.Types.{Addr, Conn, established}
use halo.Stack.Emit.{Env}
use halo.Stack.Table.{new_conn, new_stack, dialing}
use halo.Stack.Sender.{IsSending}
use halo.Stack.Receiver.{IsReceiving}
use halo.Examples.Data.{lan_host, wan_host}

abbrev pub client_addr : Addr
client_addr = record { ip = lan_host; port = 50000 }

abbrev pub server_addr : Addr
server_addr = record { ip = wan_host; port = 80 }

abbrev pub free_addr : Addr
free_addr = record { ip = lan_host; port = 0 }

-- Three bytes wait in the ring.
abbrev pub three_queued : ByteBuffer
three_queued = record { bytes = replicate 16384 7; head = 2; size = 3 }

abbrev pub client : Conn
client = record (new_conn client_addr server_addr 1000 1) {
  state = established;
  snd_una = 1001;
  snd_nxt = 1001;
  rcv_nxt = 5001;
  peer_window = 16384;
  tx = three_queued;
}

abbrev pub server : Conn
server = record (new_conn server_addr client_addr 5000 1) {
  state = established;
  snd_una = 5001;
  snd_nxt = 5001;
  rcv_nxt = 1001;
  peer_window = 16384;
}

abbrev pub client_env : Env
client_env = record { check = true; id = 0; conn = client; stack = new_stack 0 }

abbrev pub server_env : Env
server_env = record { check = true; id = 0; conn = server; stack = new_stack 0 }

-- A connection whose SYN was sent.
abbrev pub dialing_env : Env
dialing_env = record {
  check = true;
  id = 0;
  conn = dialing client_addr server_addr 1000 1;
  stack = new_stack 0;
}

abbrev pub syn_ack : TcpPkt
syn_ack = record {
  payload = [];
  src_port = 80;
  dst_port = 50000;
  seq_num = 5000;
  ack_num = 1001;
  flags = 0x12;
  window = 16384;
  mss = 1200;
}

-- The second of the three bytes was received before.
abbrev pub overlapping : TcpPkt
overlapping = record {
  payload = 1 ∷ 2 ∷ 3 ∷ [];
  src_port = 50000;
  dst_port = 80;
  seq_num = 999;
  ack_num = 5001;
  flags = 0x18;
  window = 16384;
  mss = 0;
}

capacity : length (replicate {A = ℕ} 16384 7) ≡ 16384
capacity = length-replicate {A = ℕ} 16384 7

pub empty : length (replicate {A = ℕ} 16384 0) ≡ 16384
empty = length-replicate {A = ℕ} 16384 0

pub dialing-IsSending : IsSending dialing_env.conn
dialing-IsSending = record {
  una = omega arith;
  nxt = refl;
  ring = record { inside = omega (arith, empty); fits = omega arith };
  capacity = empty;
  queued = omega arith;
  few = omega arith;
  idle = inr refl;
  fin = refl;
  fin_at = inl refl;
}

pub client-IsSending : IsSending client
client-IsSending = record {
  una = omega arith;
  nxt = refl;
  ring = record { inside = omega (arith, capacity); fits = omega (arith, capacity) };
  capacity = capacity;
  queued = omega arith;
  few = omega arith;
  idle = inl refl;
  fin = refl;
  fin_at = inl refl;
}

pub server-IsReceiving : IsReceiving server
server-IsReceiving = record {
  awaited = omega arith;
  ring = record { inside = omega (arith, empty); fits = omega arith };
  capacity = empty;
}
