-- ===== src/Epoll/Example.antt =====
-- A kernel that follows epoll_ctl(2): the interest list is a function, and no call fails.
use knet_lib.Common.{
  ℕ, ◌==◌, ◌≡◌, ◌≢◌, refl, eq→==, ==_iff, Bool-cases, inl, inr, Option, none, some, if◌then◌else◌,
}
use knet_lib.Epoll.{Ctl, add, mod_, del, Kernel, IsEpoll}

abbrev pub set_mask : ℕ → Option ℕ → (ℕ → Option ℕ) → ℕ → Option ℕ
set_mask fd mask k fd' = if fd' == fd then mask else k fd'

abbrev pub quiet_kernel : Kernel
quiet_kernel = record {
  Interest = ℕ → Option ℕ;
  watched = λ k fd. k fd;
  ctl = λ op fd events k. elim op [
    | del ↦ (none, set_mask fd none k)
    | _ ↦ (none, set_mask fd (some events) k)
  ];
}

set_mask-same : (fd : ℕ) (mask : Option ℕ) (k : ℕ → Option ℕ) → set_mask fd mask k fd ≡ mask
set_mask-same fd mask k = rw (eq→== fd fd refl) refl

set_mask-other :
    (fd : ℕ) (mask : Option ℕ) (k : ℕ → Option ℕ) (fd' : ℕ)
    → fd' ≢ fd
    → set_mask fd mask k fd' ≡ k fd'
set_mask-other fd mask k fd' ne = elim (Bool-cases (fd' == fd)) [
  | inl t ↦ absurd (ne ((==_iff fd' fd).0 t))
  | inr f ↦ rw f refl
]

pub quiet_kernel-IsEpoll : IsEpoll quiet_kernel
quiet_kernel-IsEpoll = record {
  add_free = λ fd events k e. refl;
  mod_any = λ fd events k. refl;
  del_any = λ fd events k. refl;
  add_sets = λ fd events k e. set_mask-same fd (some events) k;
  mod_sets = λ fd events k e. set_mask-same fd (some events) k;
  del_clears = λ fd events k e. set_mask-same fd none k;
  missing = λ op fd events k errno e. absurd (never op fd events errno k e);
  others = kept;
}
  where
    never :
        (op : Ctl) (fd events errno : ℕ) (k : ℕ → Option ℕ)
        → ¬ ((quiet_kernel.ctl op fd events k).0 ≡ some errno)
    never add fd events errno k e = cc
    never mod_ fd events errno k e = cc
    never del fd events errno k e = cc

    kept :
        (op : Ctl) (fd events : ℕ) (k : ℕ → Option ℕ) (fd' : ℕ)
        → fd' ≢ fd
        → (quiet_kernel.ctl op fd events k).1 fd' ≡ k fd'
    kept add fd events k = set_mask-other fd (some events) k
    kept mod_ fd events k = set_mask-other fd (some events) k
    kept del fd events k = set_mask-other fd none k
