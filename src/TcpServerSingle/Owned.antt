-- ===== src/TcpServerSingle/Owned.antt =====
-- TcpServerSingle: every open connection is in the set of connections, so that it is kept alive and
-- that its close callback finds it.
use knet_lib.Common.{
  ℕ, ◌==◌, ◌≡◌, refl, sym, true, false, false≢true, List, [], ◌∷◌, Bool-cases, inl, inr, Returns,
  subst, ||-true, arith, eq→==, ==_iff,
}
use knet_lib.Acceptor.{accepted, accept_one}
use knet_lib.TcpServerSingle.{
  TcpServerSingle, is_member, erase, insert, new_connection, close_connection, force_close,
  handle_accept,
}

abbrev pub IsOwned : TcpServerSingle → Type 0
IsOwned s = (p : ℕ) → s.is_open p ≡ true → is_member p s.connections ≡ true

is_member-insert : (p : ℕ) (ps : List ℕ) → is_member p (insert p ps) ≡ true
is_member-insert p ps = elim (Bool-cases (is_member p ps)) [
  | inl t ↦ simp t refl
  | inr f ↦ simp (f, eq→== p p refl) refl
]

is_member-insert_other :
    (p q : ℕ) (ps : List ℕ) → is_member q ps ≡ true → is_member q (insert p ps) ≡ true
is_member-insert_other p q ps h = elim (Bool-cases (is_member p ps)) [
  | inl t ↦ simp t h
  | inr f ↦ simp (f, h, ||-true (p == q)) refl
]

pub is_member-erase : (p : ℕ) (ps : List ℕ) → is_member p (erase p ps) ≡ false
unfolding erase
is_member-erase p [] = refl
is_member-erase p (q ∷ qs) = elim (Bool-cases (q == p)) [
  | inl t ↦ rw t (is_member-erase p qs)
  | inr f ↦ simp (f, is_member-erase p qs) refl
]

is_member-erase_other :
    (p q : ℕ) (ps : List ℕ)
    → (q == p) ≡ false
    → is_member q ps ≡ true
    → is_member q (erase p ps) ≡ true
unfolding erase
is_member-erase_other p q [] ne h = h
is_member-erase_other p q (r ∷ rs) ne h = elim (Bool-cases (r == p)) [
  | inl t ↦
      let other : (r == q) ≡ false = ground arith in
      rw t (is_member-erase_other p q rs ne (rw other at h))
  | inr f ↦ rw f (elim (Bool-cases (r == q)) [
    | inl e ↦ simp e refl
    | inr e ↦ simp (e, is_member-erase_other p q rs ne (rw e at h)) refl
  ])
]

-- Accepting a connection returns with the connection open, and keeps every open connection in the
-- set of connections that the server owns.
pub handle_accept-IsOwned :
    (fd p : ℕ) (s : TcpServerSingle)
    → IsOwned s
    → Returns (λ s'. IsOwned s' × (s'.is_open p ≡ true)) (handle_accept (accepted fd) p true s)
unfolding handle_accept new_connection accept_one
handle_accept-IsOwned fd p s h = (
  λ q o. elim (Bool-cases (q == p)) [
    | inl t ↦
        subst (λ x. is_member x (insert p s.connections) ≡ true) (sym ((==_iff q p).0 t))
          (is_member-insert p s.connections)
    | inr f ↦ is_member-insert_other p q s.connections (h q (rw f at o))
  ],
  simp (eq→== p p refl) refl,
)

-- Force-closing a connection, where every open connection is in the set, returns: the close
-- callback finds the connection, which is closed after it, and every connection that is still open
-- is in the set.
pub force_close-IsOwned :
    (p : ℕ) (s : TcpServerSingle)
    → IsOwned s
    → Returns (λ s'. IsOwned s' × (s'.is_open p ≡ false)) (force_close p s)
unfolding force_close close_connection
force_close-IsOwned p s h = elim (Bool-cases (s.is_open p)) [
  | inl t ↦
      simp (t, h p t)
        (
          λ q o. elim (Bool-cases (q == p)) [
            | inl same ↦ absurd (false≢true (rw same at o))
            | inr f ↦ is_member-erase_other p q s.connections f (h q (rw f at o))
          ],
          simp (eq→== p p refl) refl,
        )
  | inr f ↦ simp f (h, refl)
]
