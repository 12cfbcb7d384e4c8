-- ===== src/Session/Listener/Isolation.antt =====
-- sess.go: what a packet can do to a Listener and its sessions.
pub mod Steps
pub mod Input
use kcp_go.Prelude.{
  ℕ, ◌≤◌, ◌<◌, ◌≡◌, refl, sym, ap, ◌∙◌, subst, ◌≢◌, inl, inr, false, none, some, List, [], ◌∷◌,
  arith, ◌==◌, ne→==, ==→eq, ==→ne, ==_refl, Bool-cases, length, All,
}
use kcp_go.Session.Listener.{
  accept_backlog, Peer, Listener, find_session, remove_session, put_peer, close_peer,
}
use kcp_go.Session.{Session}
use kcp_go.Kcp.{Clock}

-- An entry of the map: an open session that exists, under its own address.
abbrev pub IsEntry : ℕ → (ℕ → Peer) → ℕ × ℕ → Type 0
IsEntry next store (addr, id) =
    (id < next) × ((store id).remote ≡ addr) × ((store id).closed ≡ false)

-- No address stands twice.
abbrev pub IsMap : List (ℕ × ℕ) → Type 0
IsMap [] = Unit
IsMap ((k, id) ∷ ss) = (find_session k ss ≡ none) × IsMap ss

pub record IsListener (l : Listener) : Type 0 where
  pub entries : All (IsEntry l.next_id l.store) l.sessions
  pub keyed : IsMap l.sessions
  pub within : length l.accepts ≤ accept_backlog

-- What a packet from an address leaves: a valid listener, and all sessions of other addresses as they
-- were, with those that were there.
pub record Handled (l : Listener) (addr : ℕ) (l' : Listener) : Type 0 where
  pub valid : IsListener l'
  pub others : (i : ℕ) → i < l.next_id → (l.store i).remote ≢ addr → l'.store i ≡ l.store i
  pub others_found : (a : ℕ) → a ≢ addr → find_session a l'.sessions ≡ find_session a l.sessions
  pub grown : l.next_id ≤ l'.next_id

find-All :
    (next : ℕ) (store : ℕ → Peer) (addr id : ℕ) (ss : List (ℕ × ℕ))
    → All (IsEntry next store) ss
    → find_session addr ss ≡ some id
    → IsEntry next store (addr, id)
unfolding find_session
find-All next store addr id [] v e = cc
find-All next store addr id ((k, j) ∷ ss) v e = elim (Bool-cases (k == addr)) [
  | inl t ↦
      let same : some j ≡ some id = rw t at e in
      let key : k ≡ addr = ==→eq k addr t in
      let num : j ≡ id = cc in
      subst (λ i. IsEntry next store (addr, i)) num (subst (λ a. IsEntry next store (a, j)) key v.0)
  | inr t ↦
      let later : find_session addr ss ≡ some id = rw (t, find_session) at e in
      find-All next store addr id ss v.1 later
]

find-remove_self :
    (addr : ℕ) (ss : List (ℕ × ℕ)) → find_session addr (remove_session addr ss) ≡ none
unfolding find_session remove_session
find-remove_self addr [] = refl
find-remove_self addr ((k, j) ∷ ss) = elim (Bool-cases (k == addr)) [
  | inl t ↦ rw (t, remove_session) (find-remove_self addr ss)
  | inr t ↦ rw (t, remove_session, find_session) (rw (t) (find-remove_self addr ss))
]

find-remove_ne :
    (a addr : ℕ) (ss : List (ℕ × ℕ))
    → a ≢ addr
    → find_session a (remove_session addr ss) ≡ find_session a ss
unfolding find_session remove_session
find-remove_ne a addr [] ne = refl
find-remove_ne a addr ((k, j) ∷ ss) ne = ground (arith, find-remove_ne a addr ss ne)

remove-IsMap : (addr : ℕ) (ss : List (ℕ × ℕ)) → IsMap ss → IsMap (remove_session addr ss)
unfolding remove_session
remove-IsMap addr [] v = tt
remove-IsMap addr ((k, j) ∷ ss) v = elim (Bool-cases (k == addr)) [
  | inl t ↦ rw (t, remove_session) (remove-IsMap addr ss v.1)
  | inr t ↦
      rw (t, remove_session)
        (find-remove_ne k addr ss (==→ne k addr t) ∙ v.0, remove-IsMap addr ss v.1)
]

-- Entries stay entries in a store that differs at numbers of the address alone, which goes.
remove-All :
    (next next' : ℕ) (store store' : ℕ → Peer) (addr : ℕ) (ss : List (ℕ × ℕ))
    → next ≤ next'
    → ((i : ℕ) → i < next → (store i).remote ≢ addr → store' i ≡ store i)
    → All (IsEntry next store) ss
    → All (IsEntry next' store') (remove_session addr ss)
unfolding remove_session
remove-All next next' store store' addr [] le same v = tt
remove-All next next' store store' addr ((k, j) ∷ ss) le same v = elim (Bool-cases (k == addr)) [
  | inl t ↦ rw (t, remove_session) (remove-All next next' store store' addr ss le same v.1)
  | inr t ↦
      let (lt, remote, open_) = v.0 in
      let e : store' j ≡ store j = same j lt (λ r. ==→ne k addr t (sym remote ∙ r)) in
      rw (t, remove_session)
        (
          (omega arith, ap (λ p. p.remote) e ∙ remote, ap (λ p. p.closed) e ∙ open_),
          remove-All next next' store store' addr ss le same v.1,
        )
]

-- The same for a store that differs in sessions alone.
stay-All :
    (next : ℕ) (store store' : ℕ → Peer) (ss : List (ℕ × ℕ))
    → ((i : ℕ) → (store' i).remote ≡ (store i).remote)
    → ((i : ℕ) → (store' i).closed ≡ (store i).closed)
    → All (IsEntry next store) ss
    → All (IsEntry next store') ss
stay-All next store store' [] hr hc v = tt
stay-All next store store' ((k, j) ∷ ss) hr hc v =
    let (lt, remote, open_) = v.0 in
    ((lt, hr j ∙ remote, hc j ∙ open_), stay-All next store store' ss hr hc v.1)

-- A number that is written, and one that is not.
put_other : (id i : ℕ) (p : Peer) (store : ℕ → Peer) → i ≢ id → put_peer id p store i ≡ store i
put_other id i p store ne = rw (ne→== i id ne) refl

put_self : (id : ℕ) (p : Peer) (store : ℕ → Peer) → put_peer id p store id ≡ p
put_self id p store = rw (==_refl id) refl

put_field :
    {A : Type 0} (id : ℕ) (p : Peer) (store : ℕ → Peer) (field : Peer → A)
    → field p ≡ field (store id)
    → (i : ℕ) → field (put_peer id p store i) ≡ field (store i)
put_field id p store field e i = elim (Bool-cases (i == id)) [
  | inl t ↦ rw (t) (e ∙ ap (λ j. field (store j)) (sym (==→eq i id t)))
  | inr t ↦ rw (t) refl
]
