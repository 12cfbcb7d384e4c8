-- ===== src/Session/Listener/Isolation/Input.antt =====
-- sess.go: Listener.packetInput as a whole.
use kcp_go.Prelude.{
  ℕ, ◌≡◌, refl, sym, subst, ◌≢◌, inl, inr, Option, none, some, ltb, ◌==◌, Option-cases, length,
}
use kcp_go.Session.Listener.Isolation.{IsListener, find-All}
use kcp_go.Session.Listener.Isolation.Steps.{
  IsRoomy, if-elim, Handles, Handled-trans, Handled-refl, feed-Handled, close_peer-Handled,
  add_session-Handles, counted-Handled, close_peer-security,
}
use kcp_go.Session.Listener.{
  Listener, find_session, close_peer, peek_conv, Verdict, ignore, feed_session, replace_session,
  create_session, decide, verdict, execute, accept_opened_packet, listener_input,
}
use kcp_go.Session.{kcp_input, min_packet_size}
use kcp_go.Kcp.{Clock, World}
use kcp_go.Fec.{Codec}
use kcp_go.Packet.{Opened, too_short, corrupt, opened, panicked, open_packet}
use kcp_go.Bytes.{Bytes}

-- A verdict that names a session names one of the address.
abbrev IsVerdict : Listener → ℕ → Verdict → Type 0
IsVerdict l addr ignore = Unit
IsVerdict l addr (feed_session id) = (l.store id).remote ≡ addr
IsVerdict l addr (replace_session id conv) = (l.store id).remote ≡ addr
IsVerdict l addr (create_session conv) = Unit

decide-IsVerdict :
    (l : Listener) (addr : ℕ) (found : Option ℕ) (shown : Option (ℕ × ℕ))
    → ((id : ℕ) → found ≡ some id → (l.store id).remote ≡ addr)
    → IsVerdict l addr (decide l found shown)
unfolding decide
decide-IsVerdict l addr none none h = tt
decide-IsVerdict l addr none (some (conv, sn)) h = tt
decide-IsVerdict l addr (some id) none h = h id refl
decide-IsVerdict l addr (some id) (some (conv, sn)) h =
    if-elim (IsVerdict l addr) (conv == (l.store id).session.kcp.conv) (h id refl)
      (if-elim (IsVerdict l addr) (sn == 0) (h id refl) tt)

verdict-IsVerdict :
    (l : Listener) (b : Bytes) (addr : ℕ) → IsListener l → IsVerdict l addr (verdict l b addr)
unfolding verdict
verdict-IsVerdict l b addr v = elim (Option-cases (peek_conv b)) [
  | inl e ↦
      let same : verdict l b addr ≡ ignore = rw (e, verdict) refl in
      subst (IsVerdict l addr) (sym same) tt
  | inr (shown, e) ↦
      let same : verdict l b addr ≡ decide l (find_session addr l.sessions) shown =
        rw (e, verdict) refl in
      subst (IsVerdict l addr) (sym same) (
        decide-IsVerdict l addr (find_session addr l.sessions) shown
          (λ id f. (find-All l.next_id l.store addr id l.sessions v.entries f).1))
]

execute-Handles :
    (clock : Clock) (codec : Codec) (w : World) (b : Bytes) (addr : ℕ) (d : Verdict) (l : Listener)
    → IsListener l
    → IsRoomy l.security
    → IsVerdict l addr d
    → Handles l addr (execute clock codec w b addr d l)
unfolding execute
execute-Handles clock codec w b addr ignore l v room h = (l, refl, Handled-refl l addr v)
execute-Handles clock codec w b addr (feed_session id) l v room h =
    (_, refl, feed-Handled l addr id (kcp_input clock codec b (l.store id).session) v h)
execute-Handles clock codec w b addr (replace_session id conv) l v room h =
    let closed_ = close_peer-Handled clock l addr id v h in
    let (l', e, f) =
      add_session-Handles clock codec w b addr conv (close_peer clock id l) closed_.valid
        (subst IsRoomy (sym (close_peer-security clock l id)) room) in
    (l', e, Handled-trans l (close_peer clock id l) l' addr closed_ f)
execute-Handles clock codec w b addr (create_session conv) l v room h =
    add_session-Handles clock codec w b addr conv l v room

accept-Handles :
    (clock : Clock) (codec : Codec) (w : World) (addr : ℕ) (o : Opened) (l : Listener)
    → IsListener l
    → IsRoomy l.security
    → o ≢ panicked
    → Handles l addr (accept_opened_packet clock codec w addr o l)
unfolding accept_opened_packet
accept-Handles clock codec w addr too_short l v room ok = (l, refl, Handled-refl l addr v)
accept-Handles clock codec w addr corrupt l v room ok = (_, refl, counted-Handled l addr v)
accept-Handles clock codec w addr panicked l v room ok = absurd (ok refl)
accept-Handles clock codec w addr (opened b) l v room ok =
    if-elim (Handles l addr) (ltb (length b) min_packet_size) (l, refl, Handled-refl l addr v)
      (execute-Handles clock codec w b addr (verdict l b addr) l v room
        (verdict-IsVerdict l b addr v))

-- A packet that can be opened, given to a listener whose map is valid and whose security leaves room
-- for a segment in an MTU of 1400: the listener does not panic. Its map is valid afterwards: the
-- entries are open sessions, each under its own address, no address stands twice, and at most 128
-- sessions wait for Accept. The sessions of all other addresses are as they were, and each other
-- address finds in the map what it found before.
pub listener_input-Handles :
    (clock : Clock) (codec : Codec) (checksum : Bytes → ℕ) (w : World) (b : Bytes) (addr : ℕ)
    (l : Listener)
    → IsListener l
    → IsRoomy l.security
    → open_packet l.security checksum b ≢ panicked
    → Handles l addr (listener_input clock codec checksum w b addr l)
unfolding listener_input
listener_input-Handles clock codec checksum w b addr l v room ok =
    accept-Handles clock codec w addr (open_packet l.security checksum b) l v room ok
