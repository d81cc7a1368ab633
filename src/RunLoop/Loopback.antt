-- ===== src/RunLoop/Loopback.antt =====
-- Callbacks that other threads schedule on the run loop of HAPPlatformRunLoop.c:
-- `HAPPlatformRunLoopScheduleCallback` sends them to the loopback socket, and
-- `HandleLoopbackFileHandleCallback` receives them.
--
-- A callback is its pointer, a number of `w` bytes; `pipe_buf` is PIPE_BUF of the C library. A
-- `char` is taken to be unsigned, as it is with the compilers of the ESP chips. What a callback does
-- is not part of the model, since it does not reach the buffer.
pub mod Messages
use homekit_bridge.Base.{
  ℕ, zero, suc, ◌+◌, ◌-◌, ◌*◌, ◌%◌, ◌^◌, ◌≤◌, ◌<◌, ◌≡◌, refl, ap, sym, ◌∙◌, Bool, true, false,
  Option, none, some, List, [], ◌∷◌, ◌++◌, ltb, leb, ◌==◌, if◌then◌else◌, is_empty, length, take,
  drop, get_elem?, arith, length-append, length-drop, append_assoc, append-nil,
}
use homekit_bridge.Base.Bytes.{Bytes}
use homekit_bridge.Base.Endian.{le_bytes, of_le, length-le_bytes, of_le-le_bytes}
use homekit_bridge.Base.Outcome.{Outcome, ok, abort, ◌>>=◌, ◌>>◌, require}

-- The results of `HAPPlatformRunLoopScheduleCallback`, with the datagram that is sent.
pub data Scheduled : Type 0 where
  sent : Bytes → Scheduled
  out_of_resources unknown : Scheduled

-- A callback and its context.
abbrev pub Job : Type 0
Job = ℕ × Bytes

-- What `recv` answers.
pub data Incoming : Type 0 where
  datagram : Bytes → Incoming
  nothing broken : Incoming

module _ (w : ℕ) where
  -- The callback pointer, a byte for the size of the context, and the context.
  unfoldable pub message : Job → Bytes
  message (callback, context) = le_bytes w callback ++ (length context % 256) ∷ context

  -- `HAPPlatformRunLoopScheduleCallback`; `sends` is the answer of `send`.
  unfoldable pub schedule : ℕ → Bool → Job → Scheduled
  schedule pipe_buf sends (callback, context) =
      if ltb 255 (length context)
      then out_of_resources
      else if ltb pipe_buf (length context + 1 + w)
      then out_of_resources
      else if sends
      then sent (message (callback, context))
      else unknown

  -- `sizeof runLoop.loopbackBytes`
  abbrev pub capacity : ℕ
  capacity = w + 1 + 255

  -- The loop of `HandleLoopbackFileHandleCallback`: the callbacks that are called, and the bytes
  -- that stay in the buffer.
  unfoldable pub deliver : ℕ → Bytes → Option (List Job × Bytes)
  deliver zero bytes = none
  deliver (suc f) bytes = elim (get_elem? bytes w) [
    | none ↦ some ([], bytes)
    | some size ↦ elim (ltb (length bytes) (w + 1 + size)) [
      | true ↦ some ([], bytes)
      | false ↦ elim (deliver f (drop size (drop (w + 1) bytes))) [
        | none ↦ none
        | some (jobs, rest) ↦
            some ((of_le (take w bytes), take size (drop (w + 1) bytes)) ∷ jobs, rest)
      ]
    ]
  ]

  -- `HandleLoopbackFileHandleCallback` with the bytes `held` in the buffer.
  unfoldable pub handle_loopback : Incoming → Bytes → Outcome (Option (List Job × Bytes))
  handle_loopback nothing held = require (ltb (length held) capacity) >> ok (some ([], held))
  handle_loopback broken held = abort
  handle_loopback (datagram bytes) held = do
    require (ltb (length held) capacity)
    let got = take (capacity - length held) bytes
    require (leb 1 (length got))
    ok (deliver (suc (length (held ++ got))) (held ++ got))
