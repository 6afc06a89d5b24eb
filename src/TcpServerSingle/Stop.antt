-- ===== src/TcpServerSingle/Stop.antt =====
-- TcpServerSingle: stopping while connections are open.
use knet_lib.Common.{
  ℕ, ◌==◌, ◌≡◌, refl, Bool, true, false, false≢true, ◌||◌, List, [], ◌∷◌, Bool-cases, inl, inr,
  crash, dangling, ||-true, eq→==,
}
use knet_lib.TcpServerSingle.{
  TcpServerSingle, is_member, close_connection, force_close, stop_from, stop, destroy_server,
}
use knet_lib.TcpServerSingle.Owned.{is_member-erase}

-- Some connection of the list is open.
abbrev pub any_open : (ℕ → Bool) → List ℕ → Bool
any_open f [] = false
any_open f (p ∷ ps) = f p || any_open f ps

abbrev AllMembers : List ℕ → List ℕ → Type 0
AllMembers [] cs = Unit
AllMembers (p ∷ ps) cs = (is_member p cs ≡ true) × AllMembers ps cs

widen : (p : ℕ) (ps cs : List ℕ) → AllMembers ps cs → AllMembers ps (p ∷ cs)
widen p [] cs h = tt
widen p (q ∷ qs) cs h = (simp (h.0, ||-true (p == q)) refl, widen p qs cs h.1)

all_members : (cs : List ℕ) → AllMembers cs cs
all_members [] = tt
all_members (c ∷ cs) = (simp (eq→== c c refl) refl, widen c cs cs (all_members cs))

stop_from_dangling :
    (ps : List ℕ) (s : TcpServerSingle)
    → AllMembers ps s.connections
    → any_open s.is_open ps ≡ true
    → stop_from ps s ≡ crash dangling
unfolding stop_from force_close close_connection
stop_from_dangling [] s m h = absurd (false≢true h)
stop_from_dangling (p ∷ ps) s m h = elim (Bool-cases (s.is_open p)) [
  | inl t ↦ simp (t, m.0, is_member-erase p s.connections) refl
  | inr f ↦ simp (f, m.0) (stop_from_dangling ps s m.1 (rw f at h))
]

stop_open :
    (s : TcpServerSingle) → any_open s.is_open s.connections ≡ true → stop true s ≡ crash dangling
unfolding stop
stop_open s h = stop_from_dangling s.connections s (all_members s.connections) h

destroy_open :
    (s : TcpServerSingle)
    → any_open s.is_open s.connections ≡ true
    → destroy_server true s ≡ crash dangling
unfolding destroy_server
destroy_open s h = rw (stop_from_dangling s.connections s (all_members s.connections) h) refl

-- `stop` in the loop's thread, while some connection of the set is open, closes a connection,
-- which takes it out of the set that is being walked, and then steps on from the node that is
-- gone. The destructor does the same in the loop's thread.
pub stop_dangling :
    (s : TcpServerSingle)
    → any_open s.is_open s.connections ≡ true
    → (stop true s ≡ crash dangling) × (destroy_server true s ≡ crash dangling)
stop_dangling s h = (stop_open s h, destroy_open s h)
