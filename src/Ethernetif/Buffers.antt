-- ===== src/Ethernetif/Buffers.antt =====
-- Who has the buffers that `ethernetif_input` of port/ethernetif.c asks for.
use burst_kernel_virtual_mac.Base.{
  ℕ, suc, ◌+◌, ◌≡◌, ◌∙◌, ap, Bool, true, false, Option, none, some, List, [], ◌∷◌, ◌++◌, arith,
  ◌>>=◌, ◌&&◌, if◌then◌else◌,
}
use burst_kernel_virtual_mac.Packet.{Buffer}
use burst_kernel_virtual_mac.Ethernetif.{
  PbufCall, pbuf_alloc, pbuf_take, input, pbuf_free, ethernetif_input,
}

-- The buffer of the function, if it has one, and how many buffers lwIP has taken over.
pub record Holding : Type 0 where
  pub mine : Bool
  pub theirs : ℕ

-- A call on a buffer that the function does not have is a fault, and so is a new buffer while there is one.
unfoldable pub hold : PbufCall → Holding → Option Holding
hold (pbuf_alloc len allocated) h = if h.mine then none else some (record h { mine = allocated })
hold (pbuf_take pkt len) h = if h.mine then some h else none
hold (input true) h = if h.mine then some (record { mine = false; theirs = h.theirs + 1 }) else none
hold (input false) h = if h.mine then some h else none
hold pbuf_free h = if h.mine then some (record h { mine = false }) else none

unfoldable pub hold_all : List PbufCall → Holding → Option Holding
hold_all [] h = some h
hold_all (c ∷ cs) h = do h' ← hold c h; hold_all cs h'

-- A frame, and what lwIP does with it.
pub record Arrival : Type 0 where
  pub pkt : Buffer
  pub len : ℕ
  pub allocated : Bool
  pub accepted : Bool

abbrev pub calls_of : List Arrival → List PbufCall
calls_of [] = []
calls_of (a ∷ later) = ethernetif_input a.allocated a.accepted a.pkt a.len ++ calls_of later

-- The frames for which there was a buffer that lwIP took.
abbrev pub taken : List Arrival → ℕ
taken [] = 0
taken (a ∷ later) = if a.allocated && a.accepted then suc (taken later) else taken later

-- Over any row of frames, whatever lwIP answers, no buffer is used that is not there, none is
-- lost, and lwIP has one for each frame that it took.
pub calls_of-hold_all :
    (later : List Arrival) (n : ℕ)
    → hold_all (calls_of later) (record { mine = false; theirs = n })
      ≡ some (record { mine = false; theirs = n + taken later })
unfolding hold_all hold ethernetif_input
calls_of-hold_all [] n = ap (λ k. some (record { mine = false; theirs = k })) (omega arith)
calls_of-hold_all (a ∷ later) n =
    go a.allocated a.accepted a.pkt a.len (λ k. calls_of-hold_all later k)
  where
    go :
        (allocated accepted : Bool) (pkt : Buffer) (len : ℕ)
        → ((k : ℕ)
            → hold_all (calls_of later) (record { mine = false; theirs = k })
              ≡ some (record { mine = false; theirs = k + taken later }))
        → hold_all
            (ethernetif_input allocated accepted pkt len ++ calls_of later)
            (record { mine = false; theirs = n })
          ≡ some (record {
            mine = false;
            theirs = n + (if allocated && accepted then suc (taken later) else taken later);
          })
    go false accepted pkt len rest = rest n
    go true true pkt len rest =
        rest (n + 1) ∙ ap (λ k. some (record { mine = false; theirs = k })) (omega arith)
    go true false pkt len rest = rest n
