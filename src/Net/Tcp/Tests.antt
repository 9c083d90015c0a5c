-- ===== src/Net/Tcp/Tests.antt =====
-- kernel/net/tcp.c: a connection with a few bytes.
use project_lariat.Prelude.{
  List, [], arith, bit_at, false, refl, some, ℕ, ◌++◌, ◌+◌, ◌-◌, ◌<◌, ◌^◌, ◌∷◌, ◌≡◌,
}
use project_lariat.Net.{Pbuf}
use project_lariat.Net.Tcp.{
  Segment, TcpPcb, seq_gt, seq_le, seq_lt, tcp_established, tcp_listening, tcp_send_seg, zero_pcb,
}
use project_lariat.Net.Tcp.Output.{chunk_size, output_from, tcp_output_data}
use project_lariat.Net.Tcp.Calls.{recv_ready, send_round, tcp_connect, tcp_recv, tcp_send}
use project_lariat.Net.Tcp.Blocks.{Tcp, first_block, parse_segment, tcp_find_listener}
use project_lariat.Net.Tcp.Packet.{parse_segment-tcp_packet, tcp_packet}
use project_lariat.Net.Tcp.Rounds.{Sent, tcp_output_data-Sent}
use project_lariat.Net.Tcp.Opening.{Opened, tcp_connect-Opened}
use project_lariat.Net.Tcp.Delivery.{Delivered, Idle}
use project_lariat.Net.Tcp.Exchange.{tcp_send-Delivered}
use project_lariat.Net.Tcp.Stream.Calling.{behind, given, leaves, takes}
use project_lariat.Net.Tcp.Stream.World.{
  Fresh, Reach, Side, World, behind_call, here, on_left, on_right, reads, receives, submits, then,
}
use project_lariat.Net.Tcp.Input.{
  advance, after_fin, all_acked, in_connection, in_state, is_receiving, push_data, take_ack,
  take_data, take_fin, tcp_deliver_data, tcp_receive,
}
use project_lariat.Net.Tcp.Stream.Safety.{IsPrefix, read-IsPrefix}

-- An end of a connection that is set up.
abbrev end_at : ℕ → ℕ → ℕ → TcpPcb
end_at id next other = record (zero_pcb id) {
  state = tcp_established;
  local_port = 80 + id;
  remote_port = 83 - id;
  snd_una = next;
  snd_nxt = next;
  rcv_nxt = other;
  snd_wnd = 8192;
}

abbrev client : TcpPcb
client = end_at 1 500 900

abbrev server : TcpPcb
server = end_at 2 900 500

abbrev three : List ℕ
three = 7 ∷ 8 ∷ 9 ∷ []

client-Idle : Idle client server
client-Idle = record {
  p_open = refl;
  q_open = refl;
  p_live = refl;
  p_empty = refl;
  q_empty = refl;
  p_acked = refl;
  q_acked = refl;
  p_to_q = refl;
  q_to_p = refl;
  p_fits = omega arith;
  q_fits = omega arith;
}

tcp_send-Delivered_example : Delivered three client server
tcp_send-Delivered_example =
    tcp_send-Delivered three client server client-Idle (omega arith) (omega arith) (omega arith)
      (omega arith)

abbrev holding : TcpPcb
holding = record client { snd_buf = three }

tcp_output_data-Sent_example : Sent 0 holding (tcp_output_data holding)
tcp_output_data-Sent_example = tcp_output_data-Sent holding (omega arith)

abbrev pushed_three : Segment
pushed_three = record {
  src = 81;
  dst = 82;
  seq = 500;
  ack = 900;
  flags = 24;
  win = 16384;
  body = three;
}

abbrev new_buffer : Pbuf
new_buffer = record { off = 128; len = 0; saddr = 0; sport = 0; store = λ i. 0 }

parse_segment-tcp_packet_example :
    parse_segment (tcp_packet pushed_three 1 2 new_buffer) ≡ some pushed_three
parse_segment-tcp_packet_example =
    parse_segment-tcp_packet pushed_three 1 2 new_buffer
      (record {
        src_fits = omega arith;
        dst_fits = omega arith;
        seq_fits = omega arith;
        ack_fits = omega arith;
        win_fits = omega arith;
      })
      refl (omega arith)

abbrev listener : TcpPcb
listener = record (zero_pcb 5) { state = tcp_listening; local_port = 80 }

abbrev listening : Tcp
listening = record { blocks = listener ∷ []; iss = 0x10000 }

tcp_connect-Opened_example :
    Opened
      (tcp_connect (zero_pcb 6) 167772162 80 167772163 49152 4000).0
      7
      167772163
      167772162
      4000
      listener
      listening
unfolding tcp_find_listener first_block
tcp_connect-Opened_example =
    tcp_connect-Opened (zero_pcb 6) 167772162 80 167772163 49152 4000 7 listener listening
      (record { unfinished = refl; unsent = refl; unread = refl; nxt_fits = omega arith })
      (omega arith) (omega arith) refl refl (λ e. omega arith)

abbrev side_of : TcpPcb → Side
side_of p = record { pcb = p; submitted = []; read = []; sent = [] }

end_at-Fresh :
    (id next other : ℕ)
    → next < 2 ^ 32
    → other < 2 ^ 32
    → Fresh next other (side_of (end_at id next other))
end_at-Fresh id next other h k = record {
  joined = refl;
  unfinished = refl;
  una_at = omega arith;
  nxt_at = omega arith;
  rcv_at = omega arith;
  unsent = refl;
  unread = refl;
  no_submitted = refl;
  no_read = refl;
  only_bare = tt;
}

abbrev apart : World
apart = record { left = side_of client; right = side_of server }

-- The client sends three bytes, and the server reads two of them.
abbrev client_sends : Side
client_sends = record (behind_call apart.left (leaves (tcp_send three false client) client)) {
  submitted = [] ++ takes (tcp_send three false client) three client;
}

abbrev server_takes : Side
server_takes =
    behind_call apart.right
      ((tcp_receive pushed_three server).pcb, (tcp_receive pushed_three server).segs)

abbrev server_reads : Side
server_reads = record server_takes {
  pcb = behind (tcp_recv 2 false server_takes.pcb) server_takes.pcb;
  read = [] ++ given (tcp_recv 2 false server_takes.pcb);
}

abbrev two_read : World
two_read = record { left = client_sends; right = server_reads }

run : Reach apart two_read
unfolding tcp_send send_round tcp_output_data output_from chunk_size tcp_send_seg seq_lt
run =
    then (record { left = client_sends; right = server_takes }) two_read
      (then (record { left = client_sends; right = apart.right }) _
        (then apart _ here
          (on_left apart.left apart.right client_sends (submits apart.left three false refl)))
        (on_right client_sends apart.right server_takes (receives apart.right 0 pushed_three refl)))
      (on_right client_sends server_takes server_reads (reads server_takes 2 false))

read-IsPrefix_example : IsPrefix (7 ∷ 8 ∷ []) three × IsPrefix [] []
unfolding tcp_send send_round tcp_output_data output_from chunk_size tcp_send_seg seq_lt tcp_receive
    in_state in_connection take_ack advance seq_gt seq_le all_acked take_data is_receiving
    tcp_deliver_data take_fin after_fin push_data tcp_recv recv_ready bit_at
read-IsPrefix_example =
    read-IsPrefix 500 900 apart two_read (end_at-Fresh 1 500 900 (omega arith) (omega arith))
      (end_at-Fresh 2 900 500 (omega arith) (omega arith)) run (omega arith) (omega arith)
