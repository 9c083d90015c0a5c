-- ===== src/Net/Tcp/Output.antt =====
-- kernel/net/tcp.c: the sending of bytes that wait in the send buffer.
use project_lariat.Prelude.{
  List, [], drop, if◌then◌else◌, length, min, suc, take, zero, ℕ, ◌%◌, ◌+◌, ◌-◌, ◌==◌, ◌^◌, ◌∷◌,
}
use project_lariat.Net.Tcp.{Segment, TcpPcb, flag_ack, flag_psh, sub32, tcp_mss, tcp_send_seg}

-- A zero window counts as one byte.
abbrev pub window : TcpPcb → ℕ
window pcb = if pcb.snd_wnd == 0 then 1 else pcb.snd_wnd

-- The bytes of the next segment; with `snd_una` as its base, the index of the next byte is also the
-- number of bytes that are outstanding.
unfoldable pub chunk_size : TcpPcb → ℕ → ℕ
chunk_size pcb offset = min (min (length pcb.snd_buf - offset) tcp_mss) (window pcb - offset)

-- The loop of `tcp_output_data`, with fuel for its rounds.
unfoldable pub output_from : ℕ → ℕ → TcpPcb → TcpPcb × List Segment
output_from zero offset pcb = (pcb, [])
output_from (suc fuel) offset pcb =
    let chunk = chunk_size pcb offset in
    let seg =
      tcp_send_seg pcb (flag_ack + flag_psh) pcb.snd_nxt (take chunk (drop offset pcb.snd_buf)) in
    let (after, segs) =
      output_from fuel (offset + chunk) (record pcb { snd_nxt = (pcb.snd_nxt + chunk) % 2 ^ 32 }) in
    if chunk == 0 then (pcb, []) else (after, seg ∷ segs)

-- Each round but the last sends a byte, so that the bytes of the buffer bound the rounds.
unfoldable pub tcp_output_data : TcpPcb → TcpPcb × List Segment
tcp_output_data pcb = output_from (suc (length pcb.snd_buf)) (sub32 pcb.snd_nxt pcb.snd_una) pcb
