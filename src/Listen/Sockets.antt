-- ===== src/Listen/Sockets.antt =====
-- What becomes of the socket that `open_listening_sockets` asks for.
use libcn.Prelude.{ℕ, ◌≡◌, ◌⊎◌, Bool, true, false, none, some, List, [], ◌∷◌, ◌||◌, ◌==◌}
use package.libcn.Listen.{Call, setsockopt, ioctl_nonblocking, bind, close, listen, Opening}

-- Whether a call closes the descriptor, and whether one of the calls does.
abbrev pub is_close : ℕ → Call → Bool
is_close s (close t) = s == t
is_close s (setsockopt t o v) = false
is_close s (ioctl_nonblocking t) = false
is_close s (bind t) = false
is_close s (listen t n) = false

abbrev pub closes : ℕ → List Call → Bool
closes s [] = false
closes s (c ∷ cs) = is_close s c || closes s cs

-- The socket `s` listens and is open, or the return is -1 and it is closed, but for a failure of
-- `ioctl`.
abbrev pub Settled : (Call → Bool) → ℕ → Bool × Opening → Type 0
Settled answers s r =
    ((r.0 ≡ true)
      × (r.1.listener.fd ≡ some s)
      × (r.1.listener.listening ≡ true)
      × (closes s r.1.calls ≡ false))
    ⊎ ((r.0 ≡ false)
        × (r.1.listener.fd ≡ none)
        × ((closes s r.1.calls ≡ true) ⊎ (answers (ioctl_nonblocking s) ≡ false)))
