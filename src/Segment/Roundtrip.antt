-- ===== src/Segment/Roundtrip.antt =====
-- kcp.go: the header that encode writes is the header that Input reads.
use kcp_go.Prelude.{ℕ, ◌+◌, ◌*◌, ◌/◌, ◌%◌, ◌^◌, ◌<◌, ◌≡◌, refl, ◌∙◌, ◌++◌, arith, length}
use kcp_go.Bytes.{Bytes, put_u16, put_u32, u16_at, u32_at, AllBytes}
use kcp_go.Segment.{overhead, Segment, encode, Header, read_header}

-- Every field fits its width on the wire.
pub record FitsWire (s : Segment) : Type 0 where
  pub conv_fits : s.conv < 2 ^ 32
  pub cmd_fits : s.cmd < 2 ^ 8
  pub frg_fits : s.frg < 2 ^ 8
  pub wnd_fits : s.wnd < 2 ^ 16
  pub ts_fits : s.ts < 2 ^ 32
  pub sn_fits : s.sn < 2 ^ 32
  pub una_fits : s.una < 2 ^ 32
  pub len_fits : length s.payload < 2 ^ 32

abbrev pub header_of : Segment → Header
header_of s = record {
  conv = s.conv;
  cmd = s.cmd;
  frg = s.frg;
  wnd = s.wnd;
  ts = s.ts;
  sn = s.sn;
  una = s.una;
  len = length s.payload;
}

bytes_of_u32 :
    (x : ℕ)
    → x < 2 ^ 32
    → x % 256 + 256 * (x / 256 % 256) + 65536 * (x / 65536 % 256) + 16777216 * (x / 16777216 % 256)
      ≡ x
bytes_of_u32 x h = omega arith

bytes_of_u16 : (x : ℕ) → x < 2 ^ 16 → x % 256 + 256 * (x / 256 % 256) ≡ x
bytes_of_u16 x h = omega arith

-- Reading back a header that encode wrote, with any bytes behind it, gives the segment's fields and
-- the length of its payload, where each field fits its width.
pub read_header-encode :
    (s : Segment) (rest : Bytes) → FitsWire s → read_header (encode s ++ rest) ≡ header_of s
unfolding read_header encode put_u32 put_u16 u32_at u16_at
read_header-encode s rest v = λ i. record {
  conv = bytes_of_u32 s.conv v.conv_fits i;
  cmd = small s.cmd v.cmd_fits i;
  frg = small s.frg v.frg_fits i;
  wnd = bytes_of_u16 s.wnd v.wnd_fits i;
  ts = bytes_of_u32 s.ts v.ts_fits i;
  sn = bytes_of_u32 s.sn v.sn_fits i;
  una = bytes_of_u32 s.una v.una_fits i;
  len = (bytes_of_u32 (length s.payload % 2 ^ 32) (omega arith) ∙ small_len) i;
}
  where
    small : (x : ℕ) → x < 2 ^ 8 → x % 256 ≡ x
    small x h = omega arith

    small_len : length s.payload % 2 ^ 32 ≡ length s.payload
    small_len = omega arith

pub length-encode : (s : Segment) → length (encode s) ≡ overhead
unfolding encode put_u32 put_u16
length-encode s = refl

-- Every byte that encode writes is a byte, whatever the fields hold.
pub encode-AllBytes : (s : Segment) → AllBytes (encode s)
unfolding encode put_u32 put_u16
encode-AllBytes s = omega arith
