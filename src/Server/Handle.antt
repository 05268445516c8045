-- ===== src/Server/Handle.antt =====
-- The shutdown signal of a server (src/server/handle.rs, `shutdown_requested` of
-- src/server/mod.rs).
use rust_modbus.Prelude.{ℕ, ◌+◌, ◌-◌, ◌≡◌, refl, Bool, true, false, List, [], ◌∷◌, ◌==◌}

-- The channel: its value, the connections that hold a receiver, and whether the sender is there.
pub record Signal : Type 0 where
  pub value : Bool
  pub receivers : ℕ

-- `watch::Sender::new(false)` of `Server::with_config`
abbrev pub new_signal : Signal
new_signal = record { value = false; receivers = 0 }

-- What happens to the signal: a connection subscribes, one ends, or a handle asks for shutdown.
pub data Change : Type 0 where
  subscribed ended requested : Change

-- `send_replace(true)` of `shutdown` sets the value also while nobody has subscribed.
unfoldable pub change : Change → Signal → Signal
change subscribed signal = record signal { receivers = signal.receivers + 1 }
change ended signal = record signal { receivers = signal.receivers - 1 }
change requested signal = record signal { value = true }

unfoldable pub changes : List Change → Signal → Signal
unfolding change
changes [] signal = signal
changes (c ∷ cs) signal = changes cs (change c signal)

unfoldable pub is_shutting_down : Signal → Bool
is_shutting_down signal = signal.value

-- `self.signal.closed()`: whether `shutdown` returns, once it has asked.
unfoldable pub is_drained : Signal → Bool
is_drained signal = signal.receivers == 0

-- What a receiver that waits meets: a new value, or the end of the sender.
pub data Wake : Type 0 where
  set : Bool → Wake
  gone : Wake

-- `shutdown_requested`, from the value there is: whether it has returned.
unfoldable pub shutdown_requested : Bool → List Wake → Bool
shutdown_requested true wakes = true
shutdown_requested false [] = false
shutdown_requested false (set value ∷ wakes) = shutdown_requested value wakes
shutdown_requested false (gone ∷ wakes) = true

-- The connections that hold a receiver after some changes, as the changes tell it.
unfoldable pub live : List Change → ℕ → ℕ
live [] n = n
live (subscribed ∷ cs) n = live cs (n + 1)
live (ended ∷ cs) n = live cs (n - 1)
live (requested ∷ cs) n = live cs n

-- Whether shutdown was asked for.
unfoldable pub is_asked : List Change → Bool
is_asked [] = false
is_asked (subscribed ∷ cs) = is_asked cs
is_asked (ended ∷ cs) = is_asked cs
is_asked (requested ∷ cs) = true

changes-value :
    (cs : List Change) (signal : Signal) → signal.value ≡ true → (changes cs signal).value ≡ true
unfolding changes change
changes-value [] signal h = h
changes-value (subscribed ∷ cs) signal h = changes-value cs _ h
changes-value (ended ∷ cs) signal h = changes-value cs _ h
changes-value (requested ∷ cs) signal h = changes-value cs _ refl

changes-receivers :
    (cs : List Change) (signal : Signal)
    → is_drained (changes cs signal) ≡ (live cs signal.receivers == 0)
unfolding changes change is_drained live
changes-receivers [] signal = refl
changes-receivers (subscribed ∷ cs) signal = changes-receivers cs _
changes-receivers (ended ∷ cs) signal = changes-receivers cs _
changes-receivers (requested ∷ cs) signal = changes-receivers cs _

-- Whatever the changes and their order, a server is shutting down exactly from the first request
-- on, also one that came before any connection subscribed, and `shutdown` returns exactly when no
-- connection is left.
pub changes-eq :
    (cs : List Change) (n : ℕ)
    → (is_shutting_down (changes cs (record { value = false; receivers = n })) ≡ is_asked cs)
      × (is_drained (changes cs (record { value = false; receivers = n })) ≡ (live cs n == 0))
unfolding changes change is_shutting_down is_drained is_asked live
changes-eq [] n = (refl, refl)
changes-eq (subscribed ∷ cs) n = changes-eq cs (n + 1)
changes-eq (ended ∷ cs) n = changes-eq cs (n - 1)
changes-eq (requested ∷ cs) n =
    (changes-value cs _ refl, changes-receivers cs (record { value = true; receivers = n }))
