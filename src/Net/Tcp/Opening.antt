-- ===== src/Net/Tcp/Opening.antt =====
-- kernel/net/tcp.c: the three segments that set a connection up.
use project_lariat.Prelude.{
  List, Option, [], arith, bit_at, false, refl, some, true, ℕ, ◌+◌, ◌<◌, ◌^◌, ◌∷◌, ◌≡◌, ◌≢◌,
}
use project_lariat.Net.Tcp.{Segment, TcpPcb, flag_ack, flag_syn, tcp_send_seg}
use project_lariat.Net.Tcp.Input.{acks, in_state, in_syn_rcvd, in_syn_sent, tcp_receive}
use project_lariat.Net.Tcp.Calls.{tcp_connect}
use project_lariat.Net.Tcp.Accept.{IsQueued, answered, demux-IsQueued, has_id}
use project_lariat.Net.Tcp.Blocks.{
  Tcp, answering, first_block, tcp_demux, tcp_find, tcp_find_listener, tcp_unknown,
}
use project_lariat.Net.Tcp.Stream.World.{Fresh, Side}

-- A block that was made and perhaps bound.
pub record IsUnused (p : TcpPcb) : Type 0 where
  pub unfinished : p.fin_sent ≡ false
  pub unsent : p.snd_buf ≡ []
  pub unread : p.rcv_buf ≡ []
  pub nxt_fits : p.rcv_nxt < 2 ^ 32

-- An end whose program has neither sent nor read.
abbrev pub silent : TcpPcb → List Segment → Side
silent p segs = record { pcb = p; submitted = []; read = []; sent = segs }

-- What the exchange comes to: the block `child` that answers the SYN, and the two segments that
-- follow.
pub record Opened (client : TcpPcb × Segment) (id src_ip ip iss : ℕ) (lis : TcpPcb) (server : Tcp)
    : Type 0 where
  pub child : TcpPcb
  pub syn_ack : Segment
  pub ack : Segment
  pub answers :
      tcp_unknown (some id) src_ip ip client.1 server ≡ (answered child server, syn_ack ∷ [])
  pub finds : tcp_find ip child.local_port src_ip client.1.src (child ∷ server.blocks) ≡ some child
  pub confirms : (tcp_receive syn_ack client.0).segs ≡ ack ∷ []
  pub wakes : (tcp_receive syn_ack client.0).wake ≡ true
  pub queues :
      (memory : Option ℕ)
      → let (after, segs) = tcp_demux memory src_ip ip ack (answered child server) in
        IsQueued lis (tcp_receive ack child).pcb server.blocks after.blocks × (segs ≡ [])
  pub takes : (tcp_receive ack child).pcb.id ≡ id
  pub client_end :
      Fresh
        (iss + 1)
        (server.iss + 1)
        (silent (tcp_receive syn_ack client.0).pcb (client.1 ∷ ack ∷ []))
  pub server_end :
      Fresh (server.iss + 1) (iss + 1) (silent (tcp_receive ack child).pcb (syn_ack ∷ []))

-- A SYN of `tcp_connect` that reaches a listener makes a block that later segments of the client are
-- found at; its SYN and ACK wakes the client. When the client's answer has come in, the block is the
-- last one in the accept queue of the listener, and no other block has changed. Then both ends are
-- connected, with the numbers that the other one expects. The address of the new block is not that
-- of the listener, which is the first block at its own.
pub tcp_connect-Opened :
    (p : TcpPcb) (ip port src_ip ephemeral iss id : ℕ) (lis : TcpPcb) (server : Tcp)
    → IsUnused p
    → iss < 2 ^ 32
    → server.iss < 2 ^ 32
    → tcp_find_listener port server.blocks ≡ some lis
    → first_block (has_id lis.id) server.blocks ≡ some lis
    → id ≢ lis.id
    → Opened (tcp_connect p ip port src_ip ephemeral iss).0 id src_ip ip iss lis server
unfolding tcp_connect tcp_find first_block tcp_unknown answering tcp_receive in_state in_syn_sent
    in_syn_rcvd tcp_send_seg bit_at
tcp_connect-Opened p ip port src_ip ephemeral iss id lis server u few less found at_own fresh =
    let client = (tcp_connect p ip port src_ip ephemeral iss).0 in
    let c = answering id src_ip ip client.1 lis.id server.iss in
    let sa = tcp_send_seg c (flag_syn + flag_ack) server.iss [] in
    let joined = (tcp_receive sa client.0).pcb in
    let there : tcp_find ip port src_ip client.1.src (c ∷ server.blocks) ≡ some c = ground arith in
    let again : tcp_find ip (acks joined).dst src_ip (acks joined).src (c ∷ server.blocks)
        ≡ some c =
      ground arith in
    record {
      child = c;
      syn_ack = sa;
      ack = acks joined;
      answers = rw (found, tcp_unknown) refl;
      finds = there;
      confirms = ground arith;
      wakes = ground arith;
      queues = λ memory.
          demux-IsQueued memory src_ip ip (acks joined) lis c server again at_own (ground arith)
            (ground arith) (ground arith) (ground arith) (ground (arith, fresh)) (ground arith);
      takes = ground arith;
      client_end = record {
        joined = ground arith;
        unfinished = ground (arith, u.unfinished);
        una_at = ground arith;
        nxt_at = ground arith;
        rcv_at = ground arith;
        unsent = ground (arith, u.unsent);
        unread = ground (arith, u.unread);
        no_submitted = refl;
        no_read = refl;
        only_bare = ((u.nxt_fits, refl), ((ground arith, refl), tt));
      };
      server_end = record {
        joined = ground arith;
        unfinished = ground (arith, u.unfinished);
        una_at = ground arith;
        nxt_at = ground arith;
        rcv_at = ground arith;
        unsent = ground (arith, u.unsent);
        unread = ground (arith, u.unread);
        no_submitted = refl;
        no_read = refl;
        only_bare = ((omega arith, refl), tt);
      };
    }
