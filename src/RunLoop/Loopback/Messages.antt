-- ===== src/RunLoop/Loopback/Messages.antt =====
-- The callbacks that a receiver of HAPPlatformRunLoop.c gets out of the bytes of the senders.
use homekit_bridge.Base.{
  ℕ, zero, suc, ◌+◌, ◌-◌, ◌%◌, ◌^◌, ◌≤◌, ◌<◌, ◌≡◌, refl, ap, sym, ◌∙◌, Bool, true, false, some,
  List, [], ◌∷◌, ◌++◌, ltb, leb, length, take, drop, get_elem?, arith, length-append,
  take-length_append, drop-length_append, append_assoc, append-nil,
}
use homekit_bridge.Base.Bytes.{Bytes}
use homekit_bridge.Base.Endian.{le_bytes, of_le, length-le_bytes, of_le-le_bytes}
use homekit_bridge.Base.Outcome.{ok}
use homekit_bridge.RunLoop.Loopback.{
  Job, sent, datagram, message, schedule, capacity, deliver, handle_loopback,
}

get_elem?-behind :
    (k : ℕ) (xs : Bytes) (y : ℕ) (ys : Bytes) → length xs ≡ k → get_elem? (xs ++ y ∷ ys) k ≡ some y
get_elem?-behind zero [] y ys e = refl
get_elem?-behind (suc k) [] y ys e = absurd (omega arith)
get_elem?-behind zero (x ∷ xs) y ys e = absurd (omega arith)
get_elem?-behind (suc k) (x ∷ xs) y ys e = get_elem?-behind k xs y ys (omega arith)

drop-behind :
    (k : ℕ) (xs : Bytes) (y : ℕ) (ys : Bytes) → length xs ≡ k → drop (suc k) (xs ++ y ∷ ys) ≡ ys
drop-behind zero [] y ys e = refl
drop-behind (suc k) [] y ys e = absurd (omega arith)
drop-behind zero (x ∷ xs) y ys e = absurd (omega arith)
drop-behind (suc k) (x ∷ xs) y ys e = drop-behind k xs y ys (omega arith)

take-front : (k : ℕ) (xs ys : Bytes) → length xs ≡ k → take k (xs ++ ys) ≡ xs
take-front k xs ys e = ap (λ n. take n (xs ++ ys)) (sym e) ∙ take-length_append xs ys

take-whole : (k : ℕ) (xs : Bytes) → length xs ≤ k → take k xs ≡ xs
take-whole zero [] h = refl
take-whole zero (x ∷ xs) h = absurd (omega arith)
take-whole (suc k) [] h = refl
take-whole (suc k) (x ∷ xs) h = ap (λ t. x ∷ t) (take-whole k xs (omega arith))

module _ (w : ℕ) where
  -- A callback pointer of `w` bytes, and a context that has room in a message.
  pub record Fits (j : Job) : Type 0 where
    pub pointer : j.0 < 256 ^ w
    pub context : length j.1 ≤ 255

  length-message : (j : Job) → length (message w j) ≡ w + 1 + length j.1
  unfolding message
  length-message (callback, context) = omega (
    arith,
    length-le_bytes w callback,
    length-append {0} (le_bytes w callback) ((length context % 256) ∷ context),
  )

  -- One round of the loop, on bytes whose parts are known.
  deliver_round :
      (f : ℕ) (bytes p context more : Bytes) (callback size : ℕ) (jobs : List Job) (rest : Bytes)
      → get_elem? bytes w ≡ some size
      → ltb (length bytes) (w + 1 + size) ≡ false
      → take w bytes ≡ p
      → of_le p ≡ callback
      → drop (w + 1) bytes ≡ context ++ more
      → take size (context ++ more) ≡ context
      → drop size (context ++ more) ≡ more
      → deliver w f more ≡ some (jobs, rest)
      → deliver w (suc f) bytes ≡ some ((callback, context) ∷ jobs, rest)
  unfolding deliver
  deliver_round f bytes p context more callback size jobs rest g l t o d c m e = ground arith

  deliver-message :
      (f : ℕ) (j : Job) (bytes : Bytes) (jobs : List Job) (rest : Bytes)
      → Fits j
      → deliver w f bytes ≡ some (jobs, rest)
      → deliver w (suc f) (message w j ++ bytes) ≡ some (j ∷ jobs, rest)
  unfolding deliver message
  deliver-message f (callback, context) bytes jobs rest v e =
      let p = le_bytes w callback in
      let size = length context % 256 in
      let s : size ≡ length context = omega (arith, v.context) in
      let whole : Bytes = (p ++ size ∷ context) ++ bytes in
      let q : whole ≡ p ++ size ∷ (context ++ bytes) = append_assoc p (size ∷ context) bytes in
      let g : get_elem? whole w ≡ some size =
        ap (λ b. get_elem? b w) q
        ∙ get_elem?-behind w p size (context ++ bytes) (length-le_bytes w callback) in
      let t : take w whole ≡ p =
        ap (λ b. take w b) q
        ∙ take-front w p (size ∷ (context ++ bytes)) (length-le_bytes w callback) in
      let one : w + 1 ≡ suc w = omega arith in
      let d : drop (w + 1) whole ≡ context ++ bytes =
        ap (λ k. drop k whole) one
        ∙ ap (λ b. drop (suc w) b) q
        ∙ drop-behind w p size (context ++ bytes) (length-le_bytes w callback) in
      let l : length whole ≡ w + 1 + (length context + length bytes) =
        ap length q
        ∙ omega (
          arith,
          length-le_bytes w callback,
          length-append {0} p (size ∷ (context ++ bytes)),
          length-append {0} context bytes,
        ) in
      deliver_round f whole p context bytes callback size jobs rest g (ground (arith, l, s)) t
        (of_le-le_bytes w callback v.pointer) d
        (ap (λ k. take k (context ++ bytes)) s ∙ take-length_append context bytes)
        (ap (λ k. drop k (context ++ bytes)) s ∙ drop-length_append context bytes) e

  -- Callbacks one behind the other.
  abbrev pub messages : List Job → Bytes
  messages [] = []
  messages (j ∷ js) = message w j ++ messages js

  abbrev pub AllFit : List Job → Type 0
  AllFit [] = Unit
  AllFit (j ∷ js) = Fits j × AllFit js

  deliver-messages :
      (f : ℕ) (js : List Job)
      → AllFit js
      → length js < f
      → deliver w f (messages js) ≡ some (js, [])
  unfolding deliver
  deliver-messages zero js v h = absurd (omega arith)
  deliver-messages (suc f) [] v h = refl
  deliver-messages (suc f) (j ∷ js) v h =
      deliver-message f j (messages js) js [] v.0 (deliver-messages f js v.1 (omega arith))

  length-messages : (js : List Job) → length js ≤ length (messages js)
  length-messages [] = omega arith
  length-messages (j ∷ js) =
      omega
        (arith, length-messages js, length-message j, length-append {0} (message w j) (messages js))

  -- Messages that arrive together, and have room in the buffer, are all delivered in order, each with
  -- the callback and the context that were sent, and nothing stays in the buffer.
  pub handle_loopback-messages :
      (j : Job) (js : List Job)
      → AllFit (j ∷ js)
      → length (messages (j ∷ js)) ≤ capacity w
      → handle_loopback w (datagram (messages (j ∷ js))) [] ≡ ok (some (j ∷ js, []))
  unfolding handle_loopback
  handle_loopback-messages j js v h =
      let bs = messages (j ∷ js) in
      let t : take (capacity w - 0) bs ≡ bs = take-whole (capacity w - 0) bs (omega (arith, h)) in
      let l : leb 1 (length bs) ≡ true =
        ground (arith, length-message j, length-append {0} (message w j) (messages js)) in
      let c : ltb 0 (capacity w) ≡ true = ground arith in
      rw (c, t, l)
        (ap ok
          (deliver-messages (suc (length bs)) (j ∷ js) v (omega (arith, length-messages (j ∷ js)))))

  -- A callback that is scheduled, so that its message is sent, is called by the receiver with the
  -- context that it was given, where the buffer was empty before; its message has room in the buffer,
  -- and the buffer is empty afterwards. The pointer has `w` bytes.
  pub schedule_delivers :
      (pipe_buf : ℕ) (sends : Bool) (callback : ℕ) (context bytes : Bytes)
      → callback < 256 ^ w
      → schedule w pipe_buf sends (callback, context) ≡ sent bytes
      → (length bytes ≤ capacity w)
        × (handle_loopback w (datagram bytes) [] ≡ ok (some ((callback, context) ∷ [], [])))
  unfolding schedule
  schedule_delivers pipe_buf sends callback context bytes h e =
      let j : Job = (callback, context) in
      let short : length context ≤ 255 = ground arith in
      let q : message w j ≡ bytes = ground arith in
      let l : length (message w j) ≤ capacity w = omega (arith, length-message j, short) in
      let m : messages (j ∷ []) ≡ message w j = append-nil (message w j) in
      let r : handle_loopback w (datagram (messages (j ∷ []))) [] ≡ ok (some (j ∷ [], [])) =
        handle_loopback-messages j [] (record { pointer = h; context = short }, tt)
          (omega (arith, l, ap length m)) in
      (
        omega (arith, l, ap length q),
        ap (λ b. handle_loopback w (datagram b) []) (sym q ∙ sym m) ∙ r,
      )
