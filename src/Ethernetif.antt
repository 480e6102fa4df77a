-- ===== src/Ethernetif.antt =====
-- port/ethernetif.c: how lwIP gets a frame, and the interface that it is told of. lwIP is outside the
-- model: whether it has a buffer and whether it takes the frame are arguments. `ethernetif_linkoutput` is
-- in System.antt.
pub mod Buffers
use burst_kernel_virtual_mac.Base.{ℕ, codes, Bool, true, false, List, [], ◌∷◌, ◌++◌, if◌then◌else◌}
use burst_kernel_virtual_mac.Packet.{Buffer}

-- The functions that are set in `struct netif`.
pub data NetifFunction : Type 0 where
  ethernetif_linkoutput etharp_output : NetifFunction

pub data NetifFlag : Type 0 where
  broadcast etharp link_up up : NetifFlag

-- `struct netif`, less the fields that are not set.
pub record Netif : Type 0 where
  pub linkoutput : NetifFunction
  pub output : NetifFunction
  pub name : List ℕ
  pub hwaddr_len : ℕ
  pub hwaddr : List ℕ
  pub mtu : ℕ
  pub flags : List NetifFlag

-- `ethernetif_init`; `hwaddr_len` is the ETHARP_HWADDR_LEN of lwIP.
abbrev pub ethernetif_init : ℕ → Netif
ethernetif_init hwaddr_len = record {
  linkoutput = ethernetif_linkoutput;
  output = etharp_output;
  name = codes "en";
  hwaddr_len = hwaddr_len;
  hwaddr = 0x52 ∷ 0x54 ∷ 0x00 ∷ 0x12 ∷ 0x34 ∷ 0x56 ∷ [];
  mtu = 1500;
  flags = broadcast ∷ etharp ∷ link_up ∷ up ∷ [];
}

-- The calls of lwIP, on the one buffer that the function asks for.
pub data PbufCall : Type 0 where
  pbuf_alloc : ℕ → Bool → PbufCall
  pbuf_take : Buffer → ℕ → PbufCall
  input : Bool → PbufCall
  pbuf_free : PbufCall

-- `allocated` tells whether `pbuf_alloc` returns a buffer, `accepted` whether `netif->input` returns ERR_OK.
unfoldable pub ethernetif_input : Bool → Bool → Buffer → ℕ → List PbufCall
ethernetif_input allocated accepted pkt len =
    pbuf_alloc len allocated
    ∷ (if allocated
        then pbuf_take pkt len ∷ input accepted ∷ (if accepted then [] else pbuf_free ∷ [])
        else [])
