-- ===== src/Session/Mtu.antt =====
-- sess.go: SetMtu leaves room for the headers in a pooled buffer.
use kcp_go.Prelude.{
  ◌+◌, ◌≤◌, ◌<◌, ◌≡◌, true, false, ℤ, ℕ, ◌-◌, ◌^◌, refl, ap, inl, inr, arith, leb, if◌then◌else◌,
  leb→lt, Bool-cases, pos, negsuc, pos_part, ◌-ℤ◌, ltz, nat_zero, lt→leb, ◌∙◌,
}
use kcp_go.Segment.{overhead, segment_zero}
use kcp_go.Fec.{max_packet_size}
use kcp_go.Kcp.{Kcp, is_zero}
use kcp_go.Kcp.Timer.{set_mtu}
use kcp_go.Session.{Session, set_session_mtu, aead_overhead_of}

-- What KCP's MTU leaves for the headers and the trailer of encryption.
abbrev pub HasRoom : Session → Type 0
HasRoom s = s.header_size + s.kcp.mtu + aead_overhead_of s.security ≤ max_packet_size

set_mtu_room :
    (kcp : Kcp) (inner : ℤ) (room : ℕ)
    → pos_part inner ≤ room
    → room < 2 ^ 32
    → (is_zero (set_mtu kcp inner).0 ≡ true
        → ((set_mtu kcp inner).1.mtu ≤ room) × (overhead < (set_mtu kcp inner).1.mtu))
      × (is_zero (set_mtu kcp inner).0 ≡ false → (set_mtu kcp inner).1 ≡ kcp)
unfolding set_mtu
set_mtu_room kcp (negsuc n) room h lt = ((λ e. cc), (λ e. refl))
set_mtu_room kcp (pos m) room h lt = elim (Bool-cases (leb m overhead)) [
  | inl e ↦ rw e ((λ z. cc), (λ z. refl))
  | inr e ↦ rw e ((λ z. (omega arith, omega (arith, leb→lt m overhead e))), (λ z. cc))
]

inner_room :
    (mtu : ℤ) (cap head tail : ℕ)
    → pos_part ((if ltz (pos cap) mtu then pos cap else mtu) -ℤ pos head -ℤ pos tail)
      ≤ cap - (head + tail)
inner_room (pos m) cap head tail = ground arith
inner_room (negsuc m) cap head tail = ground arith

-- A call of SetMtu that succeeds leaves the room, and an MTU above the header of a segment; one that
-- fails changes nothing of the machine.
pub set_session_mtu_lem :
    (s : Session) (mtu : ℤ)
    → ((set_session_mtu s mtu).0 ≡ true
        → HasRoom (set_session_mtu s mtu).1 × (overhead < (set_session_mtu s mtu).1.kcp.mtu))
      × ((set_session_mtu s mtu).0 ≡ false → (set_session_mtu s mtu).1.kcp ≡ s.kcp)
unfolding set_session_mtu
set_session_mtu_lem s mtu =
    let capped = if ltz (pos max_packet_size) mtu then pos max_packet_size else mtu in
    let tail = aead_overhead_of s.security in
    let r =
      set_mtu_room s.kcp (capped -ℤ pos s.header_size -ℤ pos tail)
        (max_packet_size - (s.header_size + tail))
        (inner_room mtu max_packet_size s.header_size tail) (omega arith) in
    ((λ e. let (fits, above) = r.0 e in (omega (arith, fits, above), above)), r.1)

-- An MTU that the headers leave room in is taken.
pub set_session_mtu-fits :
    (s : Session) (mtu : ℕ)
    → mtu ≤ max_packet_size
    → s.header_size + aead_overhead_of s.security + overhead < mtu
    → (set_session_mtu s (pos mtu)).0 ≡ true
unfolding set_session_mtu set_mtu
set_session_mtu-fits s mtu small room =
    let head = s.header_size in
    let tail = aead_overhead_of s.security in
    let capped : (if ltz (pos max_packet_size) (pos mtu) then pos max_packet_size else pos mtu)
        ≡ pos mtu =
      ground arith in
    let inner : pos mtu -ℤ pos head -ℤ pos tail ≡ pos (mtu - head - tail) = ground arith in
    let taken : leb (mtu - head - tail) overhead ≡ false =
      lt→leb (mtu - head - tail) overhead (omega arith) in
    ap (λ z. is_zero (set_mtu s.kcp (z -ℤ pos head -ℤ pos tail)).0) capped
    ∙ ap (λ z. is_zero (set_mtu s.kcp z).0) inner
    ∙ rw taken refl
