-- ===== src/Kcp/Send.antt =====
-- kcp.go: Send, which cuts a buffer into segments, and WaitSnd.
pub mod Fragments
pub mod Stream
use kcp_go.Prelude.{
  ℕ, zero, suc, ◌+◌, ◌-◌, ◌/◌, ◌%◌, min, Bool, ◌&&◌, ◌++◌, ltb, leb, ◌==◌, if◌then◌else◌, length,
  take, drop, ℤ, pos, negsuc,
}
use kcp_go.Bytes.{Bytes}
use kcp_go.Ring.{len, push, at, set_at}
use kcp_go.Segment.{Segment, zero_segment, segment_zero}
use kcp_go.Kcp.{Kcp, is_zero}

-- Stream mode: fills up the last queued segment. What is left of the buffer goes out.
unfoldable pub extend_last : Kcp → Bytes → Kcp × Bytes
extend_last kcp buffer =
    let last = len kcp.snd_queue - 1 in
    let seg = at kcp.snd_queue last in
    let extend = min (length buffer) (kcp.mss - length seg.payload) in
    let seg' = record seg { payload = seg.payload ++ take extend buffer } in
    if ltb 0 (len kcp.snd_queue) && ltb (length seg.payload) kcp.mss
    then (record kcp { snd_queue = set_at kcp.snd_queue last seg' }, drop extend buffer)
    else (kcp, buffer)

unfoldable pub fragment_count : ℕ → ℕ → ℕ
fragment_count mss n = if leb n mss then 1 else (n + mss - 1) / mss

-- The i-th of `count` segments, with what is left of the buffer in hand.
unfoldable pub new_fragment : Bool → ℕ → ℕ → ℕ → Bytes → Segment
new_fragment message mss count i buffer = record zero_segment {
  payload = take (min (length buffer) mss) buffer;
  frg = if message then (count - i - 1) % 256 else 0;
}

-- `for i := i; i < count; i++` with `n` rounds left.
unfoldable pub push_fragments : ℕ → ℕ → ℕ → Bytes → Kcp → Kcp
push_fragments zero count i buffer kcp = kcp
push_fragments (suc n) count i buffer kcp =
    let seg = new_fragment (is_zero kcp.stream) kcp.mss count i buffer in
    push_fragments n count (i + 1) (drop (min (length buffer) kcp.mss) buffer)
      (record kcp { snd_queue = push kcp.snd_queue seg })

-- Send behind the stream step.
unfoldable pub queue_fragments : Kcp → Bytes → ℤ × Kcp
queue_fragments kcp buffer =
    let n = fragment_count kcp.mss (length buffer) in
    let count = if n == 0 then 1 else n in
    if ltb 255 n then (negsuc 1, kcp) else (pos 0, push_fragments count count 0 buffer kcp)

unfoldable pub send : Kcp → Bytes → ℤ × Kcp
send kcp buffer =
    let (kcp', rest) = extend_last kcp buffer in
    if length buffer == 0
    then (negsuc 0, kcp)
    else if is_zero kcp.stream
    then queue_fragments kcp buffer
    else if length rest == 0
    then (pos 0, kcp')
    else queue_fragments kcp' rest

unfoldable pub wait_snd : Kcp → ℕ
wait_snd kcp = len kcp.snd_buf + len kcp.snd_queue
