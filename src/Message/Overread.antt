-- ===== src/Message/Overread.antt =====
-- Where the parsers read past the allocation, which is one byte more than the buffer.
use openslp.Base.{◌+◌, ◌<◌, ◌≡◌, arith}
use openslp.Wire.{Buffer, Run, done, fail, get_uint16}
use openslp.Message.Types.{Header, Body, Platform, funct_srvack}
use openslp.Message.Bodies.{parse_srv_ack}
use openslp.Message.Parse.{as_body, parse_body, parse_rest, parse_v2_header, parse_v2_message}

-- The run succeeds, and has read a byte that does not belong to the allocation.
abbrev pub Overreads : {A : Type 0} → Run A → Type 0
Overreads (done a b) = b.size + 1 < b.reach
Overreads (fail e b) = ⊥

-- v2ParseSrvAck checks no length. A SrvAck without extension whose language tag ends the message is
-- parsed as a success, from a byte behind the allocation.
pub parse_v2_message-Overreads :
    (platform : Platform) (old : Body) (b b1 : Buffer) (h : Header)
    → parse_v2_header b ≡ done h b1
    → b1.curpos ≡ b1.size
    → h.functionid ≡ funct_srvack
    → h.extoffset ≡ 0
    → Overreads (parse_v2_message platform old b)
unfolding parse_v2_message parse_body as_body parse_rest parse_srv_ack get_uint16
parse_v2_message-Overreads platform old b b1 h e at ack ext = rw (e, ack, ext) (ground arith)
