-- ===== src/TcpStreams/Kept.antt =====
-- What a change of one file handle leaves of the streams and of the listener of
-- HAPPlatformTCPStreamManager.c.
use mathlib.Core.Path.{subst}
use mathlib.Core.Option.{some-injective}
use homekit_bridge.Base.{
  ℕ, ◌≡◌, ◌⊎◌, inl, inr, ap, sym, ◌∙◌, Bool, true, false, Option, none, some, List, ◌==◌, arith,
  Bool-cases, put, put_other, put_same,
}
use homekit_bridge.RunLoop.Handles.{Handle, find}
use homekit_bridge.TcpStreams.{Stream, Listener, no_listener, no_stream, listener_cb, stream_cb}
use homekit_bridge.TcpStreams.Valid.{
  Open, Tied, Streams, Listening, Listens, Set, Not, Set-there, Set-other, Set-cases,
}

-- A change of the file handle of one stream, together with that stream.
module _ (max i p : ℕ) (ss : ℕ → Stream) (s : Stream) (o : Option Handle) (hs hs' : List Handle)
    (v : Streams max ss hs) (old : Tied max i (ss i) p (find p hs)) (new : Tied max i s p o)
    (c : Set p o hs hs') where
  -- Another stream has another file handle.
  apart :
      (j : ℕ) (h : Handle)
      → (i == j) ≡ false
      → find (ss j).handle hs ≡ some h
      → Open max j (ss j) h
      → (p == (ss j).handle) ≡ false
  apart j h n f x = elim (Bool-cases (p == (ss j).handle)) [
    | inr q ↦ q
    | inl q ↦
        let e : find p hs ≡ some h = ap (λ k. find k hs) (ground (arith, q)) ∙ f in
        elim old [
          | inl (_, b) ↦ absurd (ground (arith, sym b ∙ e))
          | inr (k, b, _, y) ↦
              let r : k ≡ h = some-injective k h (sym b ∙ e) in
              let d : i ≡ j = sym y.context ∙ ap (λ (x : Handle). x.context) r ∙ x.context in
              absurd (ground (arith, n, d))
        ]
  ]

  changed : (s ≡ no_stream) ⊎ ((h : Handle) × (find s.handle hs' ≡ some h) × Open max i s h)
  changed = elim new [
    | inl (e, _) ↦ inl e
    | inr (h, b, e, x) ↦ inr (h, ap (λ k. find k hs') e ∙ Set-there p o hs hs' c ∙ b, x)
  ]

  kept_each :
      (j : ℕ)
      → (put ss i s j ≡ no_stream)
        ⊎ ((h : Handle) × (find (put ss i s j).handle hs' ≡ some h) × Open max j (put ss i s j) h)
  kept_each j = elim (Bool-cases (i == j)) [
    | inl q ↦
        let e : i ≡ j = ground (arith, q) in
        let r : s ≡ put ss i s i = sym (put_same ss i s) in
        let P : ℕ → Stream → Type 0 =
          λ k x. (x ≡ no_stream) ⊎ ((h : Handle) × (find x.handle hs' ≡ some h) × Open max k x h) in
        subst (λ k. P k (put ss i s k)) e (subst (P i) r changed)
    | inr q ↦ rw (put_other ss i s j q) (elim (v.each j) [
      | inl n ↦ inl n
      | inr (h, f, x) ↦ inr (h, Set-other p (ss j).handle o hs hs' c (apart j h q f x) ∙ f, x)
    ])
  ]

  kept_owned :
      (j : ℕ) (h : Handle)
      → find j hs' ≡ some h
      → h.callback ≡ stream_cb
      → ((put ss i s h.context).handle ≡ j) × ((put ss i s h.context).managed ≡ true)
  kept_owned j h f a = elim (Set-cases p j o hs hs' h c f) [
    | inl (q, e) ↦ elim new [
      | inl (_, b) ↦ absurd (ground (arith, sym b ∙ e))
      | inr (k, b, d, x) ↦
          let r : k ≡ h = some-injective k h (sym b ∙ e) in
          let n : i ≡ h.context = sym x.context ∙ ap (λ (x : Handle). x.context) r in
          let m : put ss i s h.context ≡ s = ap (put ss i s) (sym n) ∙ put_same ss i s in
          rw m (d ∙ q, x.managed)
    ]
    | inr (q, e) ↦
        let (d, m) = v.owned j h e a in
        elim (Bool-cases (i == h.context)) [
          | inr n ↦ rw (put_other ss i s h.context n) (d, m)
          | inl n ↦
              let g : ss i ≡ ss h.context = ap ss (ground (arith, n)) in
              elim old [
                | inl (b, _) ↦
                    let w : false ≡ true = sym (ap (λ (x : Stream). x.managed) (sym g ∙ b)) ∙ m in
                    absurd (ground (arith, w))
                | inr (_, _, b, _) ↦
                    let w : p ≡ j = sym b ∙ ap (λ (x : Stream). x.handle) g ∙ d in
                    absurd (ground (arith, q, w))
              ]
        ]
  ]

  pub put-Streams : Streams max (put ss i s) hs'
  put-Streams = record { each = kept_each; owned = kept_owned }

-- A change of a file handle of something else.
module _ (p : ℕ) (o : Option Handle) (hs hs' : List Handle) (c : Set p o hs hs') where
  found_other :
      (j n : ℕ) (h : Handle)
      → Not n (find p hs)
      → h.callback ≡ n
      → find j hs ≡ some h
      → find j hs' ≡ some h
  found_other j n h old a f = elim (Bool-cases (p == j)) [
    | inl q ↦
        let e : find p hs ≡ some h = ap (λ k. find k hs) (ground (arith, q)) ∙ f in
        absurd (ground (arith, old h e, a))
    | inr q ↦ Set-other p j o hs hs' c q ∙ f
  ]

  was_there :
      (j n : ℕ) (h : Handle) → Not n o → h.callback ≡ n → find j hs' ≡ some h → find j hs ≡ some h
  was_there j n h new a f = elim (Set-cases p j o hs hs' h c f) [
    | inl (_, e) ↦ absurd (ground (arith, new h e, a))
    | inr (_, e) ↦ e
  ]

  pub other-Streams :
      (max : ℕ) (ss : ℕ → Stream)
      → Not stream_cb (find p hs)
      → Not stream_cb o
      → Streams max ss hs
      → Streams max ss hs'
  other-Streams max ss old new v = record {
    each = λ i. elim (v.each i) [
      | inl n ↦ inl n
      | inr (h, f, x) ↦ inr (h, found_other (ss i).handle stream_cb h old x.callback f, x)
    ];
    owned = λ j h f a. v.owned j h (was_there j stream_cb h new a f) a;
  }

  pub other-Listens :
      (room : Bool) (l : Listener)
      → Not listener_cb (find p hs)
      → Not listener_cb o
      → Listens room l hs
      → Listens room l hs'
  other-Listens room l old new v = record {
    state = elim v.state [
      | inl n ↦ inl n
      | inr (h, f, x) ↦ inr (h, found_other l.handle listener_cb h old x.callback f, x)
    ];
    owned = λ j h f a. v.owned j h (was_there j listener_cb h new a f) a;
  }

  -- A change of the listener's file handle, together with the listener: to a closed one and no file
  -- handle, or to an open one with its file handle; the handle with the callback, if any, was there.
  pub put-Listens :
      (room before : Bool) (l l' : Listener)
      → Listens before l hs
      → ((l.managed ≡ true) → l.handle ≡ p)
      → ((l' ≡ no_listener) × (o ≡ none))
        ⊎ ((h : Handle) × (o ≡ some h) × (l'.handle ≡ p) × Listening room l' h)
      → Listens room l' hs'
  put-Listens room before l l' v mine new = record {
    state = elim new [
      | inl (e, _) ↦ inl e
      | inr (h, b, e, x) ↦ inr (h, ap (λ k. find k hs') e ∙ Set-there p o hs hs' c ∙ b, x)
    ];
    owned = λ j h f a. elim (Set-cases p j o hs hs' h c f) [
      | inl (q, e) ↦ elim new [
        | inl (_, b) ↦ absurd (ground (arith, sym b ∙ e))
        | inr (_, _, d, x) ↦ (d ∙ q, x.managed)
      ]
      | inr (q, e) ↦
          let (d, m) = v.owned j h e a in
          let w : p ≡ j = sym (mine m) ∙ d in absurd (ground (arith, q, w))
    ];
  }
