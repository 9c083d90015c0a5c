-- ===== src/Net/Tcp/Accept.antt =====
-- kernel/net/tcp.c: the accept queue of a listener when the last segment of a set-up comes in.
use project_lariat.Prelude.{
  Bool, Bool-cases, List, Option, [], ap₂, arith, false, inl, inr, refl, some, subst, sym, true, ℕ,
  ◌%◌, ◌++◌, ◌+◌, ◌==◌, ◌^◌, ◌∙◌, ◌∷◌, ◌≡◌, ◌≢◌,
}
use project_lariat.Net.Tcp.{Segment, TcpPcb}
use project_lariat.Net.Tcp.Input.{Reply, tcp_receive}
use project_lariat.Net.Tcp.Blocks.{
  Tcp, first_block, put_block, queue_accepted, settled, tcp_demux, tcp_find,
}

abbrev pub has_id : ℕ → TcpPcb → Bool
has_id id p = p.id == id

-- The server after the SYN.
abbrev pub answered : TcpPcb → Tcp → Tcp
answered child server = record {
  blocks = child ∷ server.blocks;
  iss = (server.iss + 64000) % 2 ^ 32;
}

-- The list of blocks after a segment was given to it: the new block is there as `p`, its address is
-- the last one in the accept queue of the listener, which is else as before, and all other blocks are
-- as before.
pub record IsQueued (lis p : TcpPcb) (before after : List TcpPcb) : Type 0 where
  pub listener :
      first_block (has_id lis.id) after
      ≡ some (record lis { accept_queue = lis.accept_queue ++ p.id ∷ [] })
  pub child : first_block (has_id p.id) after ≡ some p
  pub others :
      (i : ℕ) → i ≢ lis.id → i ≢ p.id → first_block (has_id i) after ≡ first_block (has_id i) before

queue_accepted_at :
    (id : ℕ) (lis : TcpPcb) (ps : List TcpPcb)
    → first_block (has_id lis.id) ps ≡ some lis
    → first_block (has_id lis.id) (queue_accepted id (some lis.id) ps)
      ≡ some (record lis { accept_queue = lis.accept_queue ++ id ∷ [] })
unfolding first_block queue_accepted
queue_accepted_at id lis [] e = ground (arith, e)
queue_accepted_at id lis (q ∷ qs) e = elim (Bool-cases (q.id == lis.id)) [
  | inl same ↦ ground (arith, same, e)
  | inr other ↦ ground (arith, other, e, queue_accepted_at id lis qs)
]

queue_accepted_others :
    (id l i : ℕ) (ps : List TcpPcb)
    → i ≢ l
    → first_block (has_id i) (queue_accepted id (some l) ps) ≡ first_block (has_id i) ps
unfolding first_block queue_accepted
queue_accepted_others id l i [] ne = refl
queue_accepted_others id l i (q ∷ qs) ne = ground (arith, ne, queue_accepted_others id l i qs ne)

settled_accepted :
    (r : Reply) (ps : List TcpPcb)
    → r.freed ≡ false
    → r.accepted ≡ true
    → settled r ps ≡ queue_accepted r.pcb.id r.pcb.parent (put_block r.pcb ps)
unfolding settled
settled_accepted r ps keeps takes = ground (arith, keeps, takes)

put_block_head : (p q : TcpPcb) (ps : List TcpPcb) → p.id ≡ q.id → put_block p (q ∷ ps) ≡ p ∷ ps
unfolding put_block
put_block_head p q ps same = ground (arith, same)

queue_accepted_head :
    (p : TcpPcb) (l : ℕ) (ps : List TcpPcb)
    → p.id ≢ l
    → queue_accepted p.id (some l) (p ∷ ps) ≡ p ∷ queue_accepted p.id (some l) ps
unfolding queue_accepted
queue_accepted_head p l ps ne = ground (arith, ne)

first_block_next :
    (p : TcpPcb) (i : ℕ) (ps : List TcpPcb)
    → p.id ≢ i
    → first_block (has_id i) (p ∷ ps) ≡ first_block (has_id i) ps
unfolding first_block
first_block_next p i ps ne = ground (arith, ne)

first_block_here : (p : TcpPcb) (ps : List TcpPcb) → first_block (has_id p.id) (p ∷ ps) ≡ some p
unfolding first_block
first_block_here p ps = ground arith

settled-IsQueued :
    (lis : TcpPcb) (r : Reply) (c : TcpPcb) (ps : List TcpPcb)
    → first_block (has_id lis.id) ps ≡ some lis
    → r.freed ≡ false
    → r.accepted ≡ true
    → r.pcb.id ≡ c.id
    → r.pcb.parent ≡ some lis.id
    → r.pcb.id ≢ lis.id
    → IsQueued lis r.pcb ps (settled r (c ∷ ps))
settled-IsQueued lis r c ps e keeps takes same parent ne =
    let p = r.pcb in
    let rest = queue_accepted p.id (some lis.id) ps in
    let shape : settled r (c ∷ ps) ≡ p ∷ rest =
      settled_accepted r (c ∷ ps) keeps takes
      ∙ ap₂ (queue_accepted p.id) parent (put_block_head p c ps same)
      ∙ queue_accepted_head p lis.id ps ne in
    subst (IsQueued lis p ps) (sym shape) (record {
      listener = first_block_next p lis.id rest ne ∙ queue_accepted_at p.id lis ps e;
      child = first_block_here p rest;
      others = λ i far other.
          first_block_next p i rest (λ q. other (sym q))
          ∙ queue_accepted_others p.id lis.id i ps far;
    })

pub demux-IsQueued :
    (memory : Option ℕ) (src_ip ip : ℕ) (seg : Segment) (lis c : TcpPcb) (server : Tcp)
    → tcp_find ip seg.dst src_ip seg.src (c ∷ server.blocks) ≡ some c
    → first_block (has_id lis.id) server.blocks ≡ some lis
    → let r = tcp_receive seg c in
      (r.freed ≡ false)
      → r.accepted ≡ true
      → r.pcb.id ≡ c.id
      → r.pcb.parent ≡ some lis.id
      → r.pcb.id ≢ lis.id
      → r.segs ≡ []
      → let (after, segs) = tcp_demux memory src_ip ip seg (answered c server) in
        IsQueued lis r.pcb server.blocks after.blocks × (segs ≡ [])
unfolding tcp_demux
demux-IsQueued memory src_ip ip seg lis c server found e keeps takes same parent ne none_sent =
    rw (found, tcp_demux)
      (
        settled-IsQueued lis (tcp_receive seg c) c server.blocks e keeps takes same parent ne,
        none_sent,
      )
