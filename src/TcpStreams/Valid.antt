-- ===== src/TcpStreams/Valid.antt =====
-- How the streams and the listener of HAPPlatformTCPStreamManager.c and the file handles of the run
-- loop belong together.
use homekit_bridge.Base.{
  ℕ, ◌<◌, ◌≡◌, ◌⊎◌, inl, inr, sym, ◌∙◌, Bool, true, false, ◌&&◌, ◌||◌, Option, none, some, List,
  ltb, ◌==◌, if◌then◌else◌, arith, Bool-cases,
}
use homekit_bridge.RunLoop.Handles.{Events, Handle, find}
use homekit_bridge.RunLoop.Handles.Valid as Lists
use homekit_bridge.TcpStreams.{
  Stream, Listener, Manager, Tcp, no_listener, no_stream, listener_cb, stream_cb, for_reading,
}
use homekit_bridge.TcpStreams.Slots.{used}

-- The events that a stream waits for.
abbrev pub wanted : Stream → Events
wanted s = record {
  reading = s.has_bytes_available;
  writing = s.has_space_available;
  error = false;
}

-- The stream `i` of `max` is open, with the file handle `h`.
pub record Open (max i : ℕ) (s : Stream) (h : Handle) : Type 0 where
  pub inside : i < max
  pub managed : s.managed ≡ true
  pub descriptor : ℕ
  pub held : s.descriptor ≡ some descriptor
  pub present : (s.handle == 0) ≡ false
  pub watched : h.descriptor ≡ some descriptor
  pub interests : h.interests ≡ wanted s
  pub callback : h.callback ≡ stream_cb
  pub context : h.context ≡ i
  pub answers : ((s.has_bytes_available || s.has_space_available) && (s.callback == 0)) ≡ false

-- The stream has a file handle at `p` exactly if there is one.
abbrev pub Tied : ℕ → ℕ → Stream → ℕ → Option Handle → Type 0
Tied max i s p o =
    ((s ≡ no_stream) × (o ≡ none)) ⊎ ((h : Handle) × (o ≡ some h) × (s.handle ≡ p) × Open max i s h)

-- Each stream is free or has its file handle, and each file handle with the streams' callback is that
-- of its stream.
pub record Streams (max : ℕ) (ss : ℕ → Stream) (hs : List Handle) : Type 0 where
  pub each :
      (i : ℕ)
      → (ss i ≡ no_stream) ⊎ ((h : Handle) × (find (ss i).handle hs ≡ some h) × Open max i (ss i) h)
  pub owned :
      (p : ℕ) (h : Handle)
      → find p hs ≡ some h
      → h.callback ≡ stream_cb
      → ((ss h.context).handle ≡ p) × ((ss h.context).managed ≡ true)

-- The listener is open, with the file handle `h`; it waits for connections if there is room.
pub record Listening (room : Bool) (l : Listener) (h : Handle) : Type 0 where
  pub managed : l.managed ≡ true
  pub descriptor : ℕ
  pub held : l.descriptor ≡ some descriptor
  pub present : (l.handle == 0) ≡ false
  pub watched : h.descriptor ≡ some descriptor
  pub interests : h.interests ≡ for_reading h.interests.reading
  pub callback : h.callback ≡ listener_cb
  pub waits : room ≡ true → h.interests.reading ≡ true
  pub answers : (l.callback == 0) ≡ false

-- The listener is closed or has its file handle, which is the only one with its callback.
pub record Listens (room : Bool) (l : Listener) (hs : List Handle) : Type 0 where
  pub state : (l ≡ no_listener) ⊎ ((h : Handle) × (find l.handle hs ≡ some h) × Listening room l h)
  pub owned :
      (p : ℕ) (h : Handle)
      → find p hs ≡ some h
      → h.callback ≡ listener_cb
      → (l.handle ≡ p) × (l.managed ≡ true)

abbrev pub room : Manager → Bool
room m = ltb m.count m.max

-- The manager and the run loop's file handles belong together, and the count is that of the streams
-- that are open.
pub record Valid (t : Tcp) : Type 0 where
  pub handles : Lists.Valid t.handles
  pub count : t.manager.count ≡ used t.manager.streams 0 t.manager.max
  pub streams : Streams t.manager.max t.manager.streams t.handles.list
  pub listener : Listens (room t.manager) t.manager.listener t.handles.list

-- The handles `hs'` are `hs` with `o` at the address `p`.
abbrev pub Set : ℕ → Option Handle → List Handle → List Handle → Type 0
Set p o hs hs' = (j : ℕ) → find j hs' ≡ (if p == j then o else find j hs)

-- No handle with that callback.
abbrev pub Not : ℕ → Option Handle → Type 0
Not c o = (h : Handle) → o ≡ some h → (h.callback == c) ≡ false

pub Set-there : (p : ℕ) (o : Option Handle) (hs hs' : List Handle) → Set p o hs hs' → find p hs' ≡ o
Set-there p o hs hs' c = c p ∙ ground arith

pub Set-other :
    (p j : ℕ) (o : Option Handle) (hs hs' : List Handle)
    → Set p o hs hs'
    → (p == j) ≡ false
    → find j hs' ≡ find j hs
Set-other p j o hs hs' c q = c j ∙ ground (arith, q)

-- A handle that is there after the change is the changed one or was there.
pub Set-cases :
    (p j : ℕ) (o : Option Handle) (hs hs' : List Handle) (h : Handle)
    → Set p o hs hs'
    → find j hs' ≡ some h
    → ((p ≡ j) × (o ≡ some h)) ⊎ (((p == j) ≡ false) × (find j hs ≡ some h))
Set-cases p j o hs hs' h c e = elim (Bool-cases (p == j)) [
  | inl q ↦ inl (ground (arith, q), sym (c j ∙ ground (arith, q)) ∙ e)
  | inr q ↦ inr (q, sym (Set-other p j o hs hs' c q) ∙ e)
]
