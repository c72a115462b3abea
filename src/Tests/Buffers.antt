-- ===== src/Tests/Buffers.antt =====
-- Buffers and messages for the runs.
use openslp.Base.{ℕ, true, List, [], length, get_or}
use openslp.Wire.{Buffer}
use openslp.Message.Types.{Message, Platform, null_str, srvack}

-- A received message, with the bytes after it read as 0.
abbrev pub of_bytes : List ℕ → Buffer
of_bytes l = record { mem = λ i. get_or l i 0; size = length l; curpos = 0; reach = 0; allocs = 0 }

-- Every allocation succeeds.
abbrev pub plenty : Platform
plenty = record {
  xmalloc = λ k n. true;
  sizeof_auth_block = 64;
  sizeof_url_entry = 64;
  stale_pid = λ b. 0;
  stale_source = λ b. 0;
}

-- SLPMessageAlloc.
abbrev pub blank : Message
blank = record {
  peer = [];
  localaddr = [];
  header = record {
    version = 0;
    functionid = 0;
    length = 0;
    flags = 0;
    encoding = 0;
    extoffset = 0;
    xid = 0;
    langtag = null_str;
  };
  body = srvack (record { errorcode = 0 });
}
