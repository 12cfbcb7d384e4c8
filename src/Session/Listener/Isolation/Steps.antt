-- ===== src/Session/Listener/Isolation/Steps.antt =====
-- sess.go: the steps of a Listener on a packet, up to packetInput.
use kcp_go.Session.Mtu.{set_session_mtu-fits}
use kcp_go.Prelude.{
  ℕ, ◌+◌, ◌≤◌, ◌<◌, ◌≡◌, refl, sym, ap, ◌∙◌, ◌≢◌, inl, inr, false, [], ◌∷◌, arith, ne→==,
  Bool-cases, length, length-append, Bool, true, if◌then◌else◌, Option, some, leb, leb→lt, ℤ, ◌%◌,
  ◌^◌,
}
use kcp_go.Session.Listener.Isolation.{
  IsListener, Handled, put_other, stay-All, put_self, remove-All, put_field, find-remove_self,
  remove-IsMap, find-remove_ne,
}
use kcp_go.Session.Listener.{
  accept_backlog, Peer, Listener, find_session, remove_session, put_peer, close_peer, register,
  add_session,
}
use kcp_go.Session.{Session, fec_header_size_plus2, aead_overhead_of, kcp_input}
use kcp_go.Kcp.{Clock, World}
use kcp_go.Kcp.Consts
use kcp_go.Fec.{Codec}
use kcp_go.Packet.{Security, security_header}
use kcp_go.Segment.{overhead}
use kcp_go.Bytes.{Bytes}
use kcp_go.Session.Create.{new_session, blank_session}

-- Two steps for the same address.
pub Handled-trans :
    (l m n : Listener) (addr : ℕ) → Handled l addr m → Handled m addr n → Handled l addr n
Handled-trans l m n addr f g = record {
  valid = g.valid;
  others = λ i lt ne.
      let e : m.store i ≡ l.store i = f.others i lt ne in
      g.others i (omega (arith, f.grown)) (λ r. ne (sym (ap (λ p. p.remote) e) ∙ r)) ∙ e;
  others_found = λ a ne. g.others_found a ne ∙ f.others_found a ne;
  grown = omega (arith, f.grown, g.grown);
}

pub Handled-refl : (l : Listener) (addr : ℕ) → IsListener l → Handled l addr l
Handled-refl l addr v = record {
  valid = v;
  others = λ i lt ne. refl;
  others_found = λ a ne. refl;
  grown = omega arith;
}

-- A session that gets a packet of its own address.
pub feed-Handled :
    (l : Listener) (addr id : ℕ) (s : Session)
    → IsListener l
    → (l.store id).remote ≡ addr
    → Handled l addr
        (record l { store = put_peer id (record (l.store id) { session = s }) l.store })
feed-Handled l addr id s v hr =
    let p : Peer = record (l.store id) { session = s } in
    record {
      valid = record {
        entries =
            stay-All l.next_id l.store (put_peer id p l.store) l.sessions
              (put_field id p l.store (λ q. q.remote) refl)
              (put_field id p l.store (λ q. q.closed) refl) v.entries;
        keyed = v.keyed;
        within = v.within;
      };
      others = λ i lt ne. put_other id i p l.store (λ e. ne (ap (λ j. (l.store j).remote) e ∙ hr));
      others_found = λ a ne. refl;
      grown = omega arith;
    }

-- What is left when the address is taken out of the map and a session that only it could have is
-- written.
removed-Handled :
    (l : Listener) (addr id next : ℕ) (p : Peer)
    → IsListener l
    → l.next_id ≤ next
    → ((i : ℕ) → i < l.next_id → (l.store i).remote ≢ addr → i ≢ id)
    → Handled l addr (record l {
      store = put_peer id p l.store;
      next_id = next;
      sessions = remove_session addr l.sessions;
    })
removed-Handled l addr id next p v le apart =
    let same : (i : ℕ)
        → i < l.next_id
        → (l.store i).remote ≢ addr
        → put_peer id p l.store i ≡ l.store i =
      λ i lt ne. put_other id i p l.store (apart i lt ne) in
    record {
      valid = record {
        entries =
            remove-All l.next_id next l.store (put_peer id p l.store) addr l.sessions le same
              v.entries;
        keyed = remove-IsMap addr l.sessions v.keyed;
        within = v.within;
      };
      others = same;
      others_found = λ a ne. find-remove_ne a addr l.sessions ne;
      grown = le;
    }

pub close_peer-Handled :
    (clock : Clock) (l : Listener) (addr id : ℕ)
    → IsListener l
    → (l.store id).remote ≡ addr
    → Handled l addr (close_peer clock id l)
unfolding close_peer
close_peer-Handled clock l addr id v hr = elim (Bool-cases (l.store id).closed) [
  | inl t ↦ rw (t) (Handled-refl l addr v)
  | inr t ↦
      rw (t, hr)
        (removed-Handled l addr id l.next_id _ v (omega arith)
          (λ i lt ne e. ne (ap (λ j. (l.store j).remote) e ∙ hr)))
]

pub if-elim :
    {A : Type 0} (P : A → Type 0) (c : Bool) {a b : A} → P a → P b → P (if c then a else b)
if-elim P true x y = x
if-elim P false x y = y

pub register-Handled :
    (clock : Clock) (l : Listener) (addr : ℕ) (s : Session)
    → IsListener l
    → length l.accepts < accept_backlog
    → Handled l addr (register clock addr s l)
unfolding register find_session
register-Handled clock l addr s v room =
    if-elim (Handled l addr) l.dead
      (removed-Handled l addr l.next_id (l.next_id + 1) _ v (omega arith)
        (λ i lt ne e. omega (arith, e)))
      (let p : Peer = record { session = s; remote = addr; closed = false } in
        let h =
          removed-Handled l addr l.next_id (l.next_id + 1) p v (omega arith)
            (λ i lt ne e. omega (arith, e)) in
        let self = put_self l.next_id p l.store in
        record {
          valid = record {
            entries =
                ((omega arith, ap (λ q. q.remote) self, ap (λ q. q.closed) self), h.valid.entries);
            keyed = (find-remove_self addr l.sessions, h.valid.keyed);
            within = omega (arith, length-append l.accepts (l.next_id ∷ []));
          };
          others = h.others;
          others_found =
              λ a ne. rw (ne→== addr a (λ e. ne (sym e)), find_session) (h.others_found a ne);
          grown = h.grown;
        })

-- A security whose headers leave room for a segment in an MTU of 1400.
abbrev pub IsRoomy : Security → Type 0
IsRoomy s =
    security_header s + fec_header_size_plus2 + aead_overhead_of s + overhead < Consts.mtu_def

blank_room :
    (codec : Codec) (security : Security) (d p : ℤ) (conv : ℕ) (w : World)
    → IsRoomy security
    → (blank_session codec security d p conv w).header_size + aead_overhead_of security + overhead
      < Consts.mtu_def
unfolding blank_session
blank_room codec security d p conv w room = ground arith

new_session-some :
    (codec : Codec) (security : Security) (d p : ℤ) (conv : ℕ) (w : World)
    → IsRoomy security
    → (s : Session) × (new_session codec security d p conv w ≡ some s)
unfolding new_session
new_session-some codec security d p conv w room =
    let blank = blank_session codec security d p conv w in
    let fits =
      set_session_mtu-fits blank Consts.mtu_def (omega arith)
        (blank_room codec security d p conv w room) in
    rw (fits) (_, refl)

-- What a step of the listener gives: it does not panic, and keeps to the sessions of the address.
abbrev pub Handles : Listener → ℕ → Option Listener → Type 0
Handles l addr r = (l' : Listener) × (r ≡ some l') × Handled l addr l'

pub add_session-Handles :
    (clock : Clock) (codec : Codec) (w : World) (b : Bytes) (addr conv : ℕ) (l : Listener)
    → IsListener l
    → IsRoomy l.security
    → Handles l addr (add_session clock codec w b addr conv l)
unfolding add_session
add_session-Handles clock codec w b addr conv l v room =
    elim (Bool-cases (leb accept_backlog (length l.accepts))) [
      | inl t ↦ rw (t) (l, refl, Handled-refl l addr v)
      | inr t ↦
          let (s, e) =
            new_session-some codec l.security l.data_shards l.parity_shards conv w room in
          rw (t, e)
            (
              _,
              refl,
              register-Handled clock l addr (kcp_input clock codec b s) v
                  (leb→lt accept_backlog (length l.accepts) t),
            )
    ]

pub counted-Handled :
    (l : Listener) (addr : ℕ)
    → IsListener l
    → Handled l addr (record l { in_csum_errors = (l.in_csum_errors + 1) % 2 ^ 64 })
counted-Handled l addr v = record {
  valid = record { entries = v.entries; keyed = v.keyed; within = v.within };
  others = λ i lt ne. refl;
  others_found = λ a ne. refl;
  grown = omega arith;
}

pub close_peer-security :
    (clock : Clock) (l : Listener) (id : ℕ) → (close_peer clock id l).security ≡ l.security
unfolding close_peer
close_peer-security clock l id =
    if-elim (λ (m : Listener). m.security ≡ l.security) (l.store id).closed refl refl
