-- ===== src/Socket/Stream.antt =====
-- The bytes of a stream sent by platform/posix/src/socket.c: what is given to the system, and what
-- waits in the queue.
use homekit_bridge.Base.{
  ℕ, zero, suc, ◌+◌, ◌≡◌, refl, ap, sym, ◌∙◌, Bool, true, Option, none, some, List, [], ◌∷◌, ◌++◌,
  is_empty, is_empty→nil, length, take, drop, append_assoc, append-nil, length-take, length-drop,
  arith, ◌==◌, not, if◌then◌else◌, if_rule,
}
use homekit_bridge.Base.Bytes.{Bytes}
use homekit_bridge.Base.Outcome.{Outcome, ok, ◌>>=◌}
use mathlib.Core.Path.{subst}
use homekit_bridge.Socket.{
  enable_write, Err, err_ok, err_in_progress, err_unknown, Family, Mbuf, Socket, Effect, mbuf_in,
  is_some,
}
use homekit_bridge.Socket.Send.{
  mbuf_out, takes, would_block, failed, SendAnswers, Sent, enqueue, transmit, send_to, send_top,
  handle_send, finish, new_mbuf,
}

module _ {ℓ} {A : Type ℓ} where
  take-append-drop-length : (n : ℕ) (xs : List A) → take n xs ++ drop (length (take n xs)) xs ≡ xs
  take-append-drop-length zero xs = refl
  take-append-drop-length (suc n) [] = refl
  take-append-drop-length (suc n) (x ∷ xs) = ap (λ t. x ∷ t) (take-append-drop-length n xs)

  take-whole : (n : ℕ) (xs : List A) → length (take n xs) ≡ length xs → take n xs ≡ xs
  take-whole zero [] e = refl
  take-whole zero (x ∷ xs) e = absurd (omega arith)
  take-whole (suc n) [] e = refl
  take-whole (suc n) (x ∷ xs) e = ap (λ t. x ∷ t) (take-whole n xs (omega arith))

  drop-nil : (n : ℕ) → drop {A = A} n [] ≡ []
  drop-nil zero = refl
  drop-nil (suc n) = refl

  drop-add : (p k : ℕ) (xs : List A) → drop (p + k) xs ≡ drop k (drop p xs)
  drop-add zero k xs = let e : 0 + k ≡ k = omega arith in ap (λ t. drop t xs) e
  drop-add (suc p) k [] = drop-nil (suc p + k) ∙ sym (drop-nil k)
  drop-add (suc p) k (x ∷ xs) =
      let e : suc p + k ≡ suc (p + k) = omega arith in ap (λ t. drop t (x ∷ xs)) e ∙ drop-add p k xs

-- The bytes that wait in the queue.
abbrev pub pending : List Mbuf → Bytes
pending [] = []
pending (m ∷ ms) = drop m.pos m.buf ++ pending ms

-- Every buffer is to be sent whole.
abbrev pub AllWhole : List Mbuf → Type 0
AllWhole [] = Unit
AllWhole (m ∷ ms) = (m.all ≡ true) × AllWhole ms

-- A socket on which a stream can be sent.
pub record Streaming (o : Socket) : Type 0 where
  pub linked : o.tail ≡ true
  pub known : is_some o.remote_addr.family ≡ true
  pub whole : AllWhole o.mbufs

pending-append :
    (ms : List Mbuf) (m : Mbuf) → pending (ms ++ m ∷ []) ≡ pending ms ++ drop m.pos m.buf
pending-append [] m = append-nil (drop m.pos m.buf)
pending-append (x ∷ ms) m =
    ap (λ t. drop x.pos x.buf ++ t) (pending-append ms m)
    ∙ sym (append_assoc (drop x.pos x.buf) (pending ms) (drop m.pos m.buf))

AllWhole-append : (ms : List Mbuf) (m : Mbuf) → AllWhole ms → m.all ≡ true → AllWhole (ms ++ m ∷ [])
AllWhole-append [] m w e = (e, tt)
AllWhole-append (x ∷ ms) m w e = (w.0, AllWhole-append ms m w.1 e)

-- A step that leaves the socket `o` has given the bytes `wire` to the system, and all but those of
-- the bytes `stream` wait in the queue.
record Flow (stream : Bytes) (o : Socket) (wire : Bytes) : Type 0 where
  conserved : wire ++ pending o.mbufs ≡ stream
  streaming : Streaming o

-- The first buffer behind `n` more bytes.
pending-advance :
    (n : ℕ) (m : Mbuf) (ms : List Mbuf)
    → let wire = take n (drop m.pos m.buf) in
      wire ++ pending (record m { pos = m.pos + length wire } ∷ ms) ≡ pending (m ∷ ms)
pending-advance n m ms =
    let wire = take n (drop m.pos m.buf) in
    ap (λ t. wire ++ (t ++ pending ms)) (drop-add m.pos (length wire) m.buf)
    ∙ sym (append_assoc wire (drop (length wire) (drop m.pos m.buf)) (pending ms))
    ∙ ap (λ t. t ++ pending ms) (take-append-drop-length n (drop m.pos m.buf))

pending-finish :
    (n : ℕ) (m : Mbuf) (ms : List Mbuf)
    → length (take n (drop m.pos m.buf)) ≡ length m.buf
    → take n (drop m.pos m.buf) ++ pending ms ≡ pending (m ∷ ms)
pending-finish n m ms e =
    ap (λ t. t ++ pending ms)
      (take-whole n (drop m.pos m.buf)
        (omega (arith, length-take n (drop m.pos m.buf), length-drop m.pos m.buf)))

-- A handler's effect that keeps the stream.
abbrev Flows : Bytes → Outcome Effect → Type 0
Flows stream r = (e : Effect) × (r ≡ ok e) × Flow stream e.socket e.wire

finish-mbufs :
    (m : Mbuf) (ms : List Mbuf) (err : Err) (wire : Bytes) (o : Socket)
    → (finish m ms err wire o).socket.mbufs ≡ ms
unfolding finish
finish-mbufs m ms err wire o =
    if_rule (λ (s : Socket). s.mbufs ≡ ms) (is_empty ms) (λ e. refl) (λ e. refl)

finish-Streaming :
    (m : Mbuf) (ms : List Mbuf) (err : Err) (wire : Bytes) (o : Socket)
    → Streaming o
    → AllWhole ms
    → Streaming (finish m ms err wire o).socket
unfolding finish
finish-Streaming m ms err wire o v w = if_rule Streaming (is_empty ms) (λ e. keep) (λ e. keep)
  where
    linked : (if is_empty ms then true else o.tail) ≡ true
    linked = if_rule (λ b. b ≡ true) (is_empty ms) (λ e. refl) (λ e. v.linked)

    keep : {b : Bool} → Streaming (record (mbuf_out ms o) { writing = b })
    keep = record { linked = linked; known = v.known; whole = w }

send_top-Flow :
    (n : ℕ) (m : Mbuf) (ms : List Mbuf) (o : Socket)
    → Streaming o
    → AllWhole (m ∷ ms)
    → Flows (pending (m ∷ ms)) (send_top (takes n) m ms o)
unfolding send_top finish
send_top-Flow n m ms o v w =
    if_rule (Flows (pending (m ∷ ms))) (length (take n (drop m.pos m.buf)) == length m.buf)
      (λ e. (
        finish m ms err_ok (take n (drop m.pos m.buf)) o,
        refl,
        record {
          conserved =
              ap (λ t. take n (drop m.pos m.buf) ++ pending t)
                (finish-mbufs m ms err_ok (take n (drop m.pos m.buf)) o)
              ∙ pending-finish n m ms (ground (arith, e));
          streaming = finish-Streaming m ms err_ok (take n (drop m.pos m.buf)) o v w.1;
        },
      ))
      λ e.
        if_rule (Flows (pending (m ∷ ms))) m.all
          (λ k. (
            record {
              socket = record o {
                mbufs = record m { pos = m.pos + length (take n (drop m.pos m.buf)) } ∷ ms;
              };
              calls = [];
              wire = take n (drop m.pos m.buf);
            },
            refl,
            record {
              conserved = pending-advance n m ms;
              streaming = record { linked = v.linked; known = v.known; whole = w };
            },
          ))
          (λ k. absurd (ground (arith, k, w.0)))

-- A write event on a socket on which a stream is sent does not end the process, and keeps the stream.
handle_send-Flow :
    (n : ℕ) (o : Socket) → Streaming o → Flows (pending o.mbufs) (handle_send (takes n) o)
unfolding handle_send
handle_send-Flow n o v = go o.mbufs refl
  where
    go :
        (ms : List Mbuf)
        → o.mbufs ≡ ms
        → Flows (pending ms) (elim ms [
          | [] ↦ ok (record { socket = o; calls = []; wire = [] })
          | m ∷ ms ↦ send_top (takes n) m ms o
        ])
    go [] e = (
      record { socket = o; calls = []; wire = [] },
      refl,
      record { conserved = ap pending e; streaming = v },
    )
    go (m ∷ ms) e = send_top-Flow n m ms o v (subst AllWhole e v.whole)

-- A send that the system answers with at most `n` bytes, or by blocking, and the allocator by memory.
data Willing : SendAnswers → Type 0 where
  now : (n : ℕ) → Willing (record { sys = takes n; memory = true })
  later : Willing (record { sys = would_block; memory = true })

abbrev Sends : Bytes → Outcome Sent → Type 0
Sends stream r = (e : Sent) × (r ≡ ok e) × Flow stream e.socket e.wire

enqueue-Flow :
    (m : Mbuf) (err : Err) (len : ℕ) (wire stream : Bytes) (o : Socket)
    → Streaming o
    → m.all ≡ true
    → wire ++ (pending o.mbufs ++ drop m.pos m.buf) ≡ stream
    → Sends stream (enqueue true m err len wire o)
unfolding enqueue mbuf_in
enqueue-Flow m err len wire stream o v w e = (
  record {
    socket = enable_write true (record o { mbufs = o.mbufs ++ m ∷ [] });
    err = err;
    len = length wire;
    wire = wire;
  },
  ground (arith, v.linked),
  record {
    conserved = ap (λ t. wire ++ t) (pending-append o.mbufs m) ∙ e;
    streaming = record {
      linked = v.linked;
      known = v.known;
      whole = AllWhole-append o.mbufs m v.whole w;
    };
  },
)

-- A send keeps the stream, and puts its bytes behind those that wait.
transmit-Flow :
    (a : SendAnswers) (bytes : Bytes) (cb arg : ℕ) (o : Socket)
    → Willing a
    → Streaming o
    → Sends (pending o.mbufs ++ bytes) (transmit a bytes none true cb arg o)
unfolding transmit
transmit-Flow a bytes cb arg o g v =
    if_rule (Sends (pending o.mbufs ++ bytes)) (not (is_empty o.mbufs)) (λ e. enqueue-whole g)
      (λ e. empty a g (ap pending (is_empty→nil o.mbufs (ground (arith, e)))))
  where
    enqueue-whole :
        {a : SendAnswers}
        → Willing a
        → Sends
            (pending o.mbufs ++ bytes)
            (enqueue a.memory (new_mbuf bytes none true cb arg) err_in_progress (length bytes) [] o)
    enqueue-whole (now n) =
        enqueue-Flow (new_mbuf bytes none true cb arg) err_in_progress (length bytes) []
          (pending o.mbufs ++ bytes) o v refl refl
    enqueue-whole later =
        enqueue-Flow (new_mbuf bytes none true cb arg) err_in_progress (length bytes) []
          (pending o.mbufs ++ bytes) o v refl refl

    empty :
        (a : SendAnswers)
        → Willing a
        → pending o.mbufs ≡ []
        → Sends (pending o.mbufs ++ bytes) (elim a.sys [
          | would_block ↦
              enqueue a.memory (new_mbuf bytes none true cb arg) err_in_progress (length bytes) [] o
          | failed ↦ ok (record { socket = o; err = err_unknown; len = 0; wire = [] })
          | takes n ↦
              let wire = take n bytes in
              if length wire == length bytes
              then ok (record { socket = o; err = err_ok; len = length wire; wire = wire })
              else if true
              then enqueue a.memory
                  (new_mbuf (drop (length wire) bytes) none true cb arg)
                  err_ok
                  (length bytes)
                  wire
                  o
              else ok (record { socket = o; err = err_ok; len = length wire; wire = wire })
        ])
    empty a later p = enqueue-whole later
    empty a (now n) p =
        if_rule (Sends (pending o.mbufs ++ bytes)) (length (take n bytes) == length bytes)
          (λ e. (
            record { socket = o; err = err_ok; len = length (take n bytes); wire = take n bytes },
            refl,
            record {
              conserved = rw p (append-nil (take n bytes) ∙ take-whole n bytes (ground (arith, e)));
              streaming = v;
            },
          ))
          λ e.
            enqueue-Flow (new_mbuf (drop (length (take n bytes)) bytes) none true cb arg) err_ok
              (length bytes) (take n bytes) (pending o.mbufs ++ bytes) o v refl
              (rw p (take-append-drop-length n bytes))

-- What happens to a socket on which a stream is sent: a send, of which the system takes at most so
-- many bytes or none by blocking, and an event of readiness for writing, at which it takes at most
-- so many bytes.
pub data Action : Type 0 where
  sending : Option ℕ → Bytes → Action
  writable : ℕ → Action

abbrev pub submitted : List Action → Bytes
submitted [] = []
submitted (sending t bytes ∷ xs) = bytes ++ submitted xs
submitted (writable n ∷ xs) = submitted xs

abbrev pub answers : Option ℕ → SendAnswers
answers none = record { sys = would_block; memory = true }
answers (some n) = record { sys = takes n; memory = true }

answers-Willing : (t : Option ℕ) → Willing (answers t)
answers-Willing none = later
answers-Willing (some n) = now n

module _ (inet_pton : Family → Bytes → Option Bytes) (cb arg : ℕ) where
  -- The actions in turn: the last socket, and the bytes given to the system.
  unfoldable pub run : List Action → Socket → Outcome (Socket × Bytes)
  run [] o = ok (o, [])
  run (sending t bytes ∷ xs) o = do
    e ← send_to inet_pton (answers t) bytes none true cb arg o
    r ← run xs e.socket
    ok (r.0, e.wire ++ r.1)
  run (writable n ∷ xs) o = do
    e ← handle_send (takes n) o
    r ← run xs e.socket
    ok (r.0, e.wire ++ r.1)

  stream_on : (a b c d x y : Bytes) → a ++ b ≡ c → x ++ d ≡ b ++ y → (a ++ x) ++ d ≡ c ++ y
  stream_on a b c d x y p q =
      append_assoc a x d ∙ ap (λ t. a ++ t) q ∙ sym (append_assoc a b y) ∙ ap (λ t. t ++ y) p

  -- Whatever sends and write events there are on a connected socket whose buffers are all to be
  -- sent whole and whose queue has its tail pointer set (as in a socket that connected by itself,
  -- but not in one from an accepted connection), and however few bytes the system takes each time,
  -- the process is not ended, and the bytes given to the system are, in order, those that waited
  -- and those submitted, less those that wait at the end. No call of the system fails, memory is
  -- not short, and the send callbacks do nothing to the socket.
  pub run_stream :
      (xs : List Action) (o : Socket)
      → Streaming o
      → (o' : Socket) × (wire : Bytes) × (run xs o ≡ ok (o', wire))
        × (wire ++ pending o'.mbufs ≡ pending o.mbufs ++ submitted xs)
  unfolding run send_to
  run_stream [] o v = (o, [], refl, sym (append-nil (pending o.mbufs)))
  run_stream (sending t bytes ∷ xs) o v =
      let (e, q, f) = transmit-Flow (answers t) bytes cb arg o (answers-Willing t) v in
      let (o', w, r, g) = run_stream xs e.socket f.streaming in
      (
        o',
        e.wire ++ w,
        ground (arith, v.known, q, r),
        stream_on e.wire (pending e.socket.mbufs) (pending o.mbufs ++ bytes) (pending o'.mbufs) w
              (submitted xs) f.conserved g
            ∙ append_assoc (pending o.mbufs) bytes (submitted xs),
      )
  run_stream (writable n ∷ xs) o v =
      let (e, q, f) = handle_send-Flow n o v in
      let (o', w, r, g) = run_stream xs e.socket f.streaming in
      (
        o',
        e.wire ++ w,
        ground (arith, q, r),
        stream_on e.wire (pending e.socket.mbufs) (pending o.mbufs) (pending o'.mbufs) w
            (submitted xs) f.conserved g,
      )
