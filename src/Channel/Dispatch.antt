-- ===== src/Channel/Dispatch.antt =====
-- Channel::handleEvents of a channel that has a read callback alone, and what any dispatch keeps.
use Prim.Native.Nat.{bit_or}
use knet_lib.Common.{
  ℕ, ◌≡◌, refl, Bool, true, false, not, ◌&&◌, &&-false, Option, none, some, Outcome, ok, crash,
  Failure, IfReturns, IfReturns-bind, IfReturns-check, if◌then◌else◌, ◌>>=◌,
}
use knet_lib.Channel.{
  Channel, has, epollin, epollpri, epollrdhup, epollerr, epollhup, epollout, Callbacks, fire,
  handle_event_with_guard, handle_events,
}

-- The masks for which the read callback is called.
abbrev pub readable_mask : ℕ
readable_mask = bit_or (bit_or epollin epollpri) epollrdhup

module _ {S : Type 0} (channel : S → Channel) (put : Channel → S → S) (f : S → Outcome S) where
  abbrev pub reads_only : Callbacks S
  reads_only = record { on_read = some f; on_write = none; on_close = none; on_error = none }

  -- The state in which the callbacks are called.
  abbrev pub guarded : S → S
  guarded s = put (record (channel s) { handling_events = true }) s

  fire-none : (b : Bool) (s : S) → fire channel put reads_only b none s ≡ ok s
  fire-none true s = refl
  fire-none false s = refl

  -- The read callback ends the process.
  pub read_crashes :
      (s : S) (e : Failure)
      → has (channel (guarded s)).revents readable_mask ≡ true
      → f (guarded s) ≡ crash e
      → handle_events channel put reads_only true true s ≡ crash e
  unfolding handle_events handle_event_with_guard
  read_crashes s e h c =
      rw
        (
          &&-false (channel s).tied,
          fire-none
              (has (channel (guarded s)).revents epollhup
                && not (has (channel (guarded s)).revents epollin))
              (guarded s),
          fire-none (has (channel (guarded s)).revents epollerr) (guarded s),
          h,
          c,
        )
        refl

-- What every callback keeps, and what does not speak of the channel, the dispatch keeps.
module _ {S : Type 0} (channel : S → Channel) (put : Channel → S → S) (callbacks : Callbacks S)
    (P : S → Type 0) where
  abbrev pub CallKeeps : Option (S → Outcome S) → Type 0
  CallKeeps none = Unit
  CallKeeps (some f) = (s : S) → P s → IfReturns P (f s)

  fire-Keeps :
      (b : Bool) (f : Option (S → Outcome S)) (s : S)
      → CallKeeps f
      → P s
      → IfReturns P (fire channel put callbacks b f s)
  fire-Keeps true none s k p = p
  fire-Keeps true (some f) s k p = k s p
  fire-Keeps false f s k p = p

  module _ (kept : (c : Channel) (s : S) → P s → P (put c s)) (close : CallKeeps callbacks.on_close)
      (err : CallKeeps callbacks.on_error) (read : CallKeeps callbacks.on_read)
      (write : CallKeeps callbacks.on_write) where
    -- The end of the dispatch, from each of its calls on.
    abbrev finish : S → Outcome S
    finish s = ok (put (record (channel s) { handling_events = false }) s)

    abbrev from_write : S → Outcome S
    from_write s =
        fire channel put callbacks (has (channel s).revents epollout) callbacks.on_write s
        >>= finish

    abbrev from_read : S → Outcome S
    from_read s =
        fire channel put callbacks (has (channel s).revents readable_mask) callbacks.on_read s
        >>= from_write

    abbrev from_error : S → Outcome S
    from_error s =
        fire channel put callbacks (has (channel s).revents epollerr) callbacks.on_error s
        >>= from_read

    call_then :
        (b : Bool) (f : Option (S → Outcome S)) (k : S → Outcome S) (s : S)
        → CallKeeps f
        → P s
        → ((s : S) → P s → IfReturns P (k s))
        → IfReturns P (fire channel put callbacks b f s >>= k)
    call_then b f k s c p h = IfReturns-bind P P _ k (fire-Keeps b f s c p) h

    from_write-Keeps : (s : S) → P s → IfReturns P (from_write s)
    from_write-Keeps s p =
        call_then (has (channel s).revents epollout) callbacks.on_write finish s write p
          (λ t q. kept (record (channel t) { handling_events = false }) t q)

    from_read-Keeps : (s : S) → P s → IfReturns P (from_read s)
    from_read-Keeps s p =
        call_then (has (channel s).revents readable_mask) callbacks.on_read from_write s read p
          from_write-Keeps

    from_error-Keeps : (s : S) → P s → IfReturns P (from_error s)
    from_error-Keeps s p =
        call_then (has (channel s).revents epollerr) callbacks.on_error from_read s err p
          from_read-Keeps

    handle_event_with_guard-Keeps :
        (s : S) → P s → IfReturns P (handle_event_with_guard channel put callbacks s)
    unfolding handle_event_with_guard
    handle_event_with_guard-Keeps s p =
        let c = record (channel s) { handling_events = true } in
        let r = (channel (put c s)).revents in
        call_then (has r epollhup && not (has r epollin)) callbacks.on_close from_error (put c s)
          close (kept c s p) from_error-Keeps

    pub handle_events-Keeps :
        (in_loop alive : Bool) (s : S)
        → P s
        → IfReturns P (handle_events channel put callbacks in_loop alive s)
    unfolding handle_events
    handle_events-Keeps in_loop alive s p =
        IfReturns-check P in_loop _ (λ e. by_tie ((channel s).tied && not alive))
      where
        by_tie :
            (b : Bool)
            → IfReturns P (if b then ok s else handle_event_with_guard channel put callbacks s)
        by_tie true = p
        by_tie false = handle_event_with_guard-Keeps s p
