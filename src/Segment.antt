-- ===== src/Segment.antt =====
-- The segment of kcp.go and its 24-byte header on the wire.
pub mod Roundtrip
use kcp_go.Prelude.{ℕ, ◌%◌, ◌^◌, [], ◌∷◌, ◌++◌, Zero, length, get, nat_zero}
use kcp_go.Bytes.{Bytes, put_u16, put_u32, u16_at, u32_at}

abbrev pub overhead : ℕ
overhead = 24

-- `data` is reserved: the payload is `payload`. A nil slice and an empty one are both `[]`.
pub record Segment : Type 0 where
  pub conv : ℕ
  pub cmd : ℕ
  pub frg : ℕ
  pub wnd : ℕ
  pub ts : ℕ
  pub sn : ℕ
  pub una : ℕ
  pub rto : ℕ
  pub xmit : ℕ
  pub resendts : ℕ
  pub fastack : ℕ
  pub acked : ℕ
  pub payload : Bytes

abbrev pub zero_segment : Segment
zero_segment = record {
  conv = 0;
  cmd = 0;
  frg = 0;
  wnd = 0;
  ts = 0;
  sn = 0;
  una = 0;
  rto = 0;
  xmit = 0;
  resendts = 0;
  fastack = 0;
  acked = 0;
  payload = [];
}

instance abbrev pub segment_zero : Zero Segment
segment_zero = record { zero_value = zero_segment }

-- The bytes that `encode` writes; the caller moves its pointer past them and counts the segment.
unfoldable pub encode : Segment → Bytes
encode seg =
    put_u32 seg.conv
    ++ (seg.cmd % 256)
      ∷ (seg.frg % 256)
      ∷ (put_u16 seg.wnd
          ++ (put_u32 seg.ts
              ++ (put_u32 seg.sn ++ (put_u32 seg.una ++ put_u32 (length seg.payload % 2 ^ 32)))))

-- The header that Input reads, in the order in which it reads it.
pub record Header : Type 0 where
  pub conv : ℕ
  pub cmd : ℕ
  pub frg : ℕ
  pub wnd : ℕ
  pub ts : ℕ
  pub sn : ℕ
  pub una : ℕ
  pub len : ℕ

unfoldable pub read_header : Bytes → Header
read_header b = record {
  conv = u32_at b 0;
  cmd = get b 4;
  frg = get b 5;
  wnd = u16_at b 6;
  ts = u32_at b 8;
  sn = u32_at b 12;
  una = u32_at b 16;
  len = u32_at b 20;
}
