-- ===== src/Sse/Broken.antt =====
-- internal/sse/sse.go: the writer after the client is gone.
use kaana.Prelude.{◌≡◌, refl, true, List, [], ◌∷◌, ◌++◌, length, replicate, arith}
use kaana.Prelude.Bytes.{Bytes}
use kaana.Sse.{Response, Writer, client_gone, write_failed, write_event, write_events}

module _ {S : Type 0} (response : Response S) where
  write_event-broken :
      (w : Writer S) (name payload : Bytes)
      → w.broken ≡ true
      → write_event response w name payload ≡ (w, client_gone)
  unfolding write_event
  write_event-broken w name payload h = ground arith

  write_events-broken :
      (w : Writer S) (frames : List (Bytes × Bytes))
      → w.broken ≡ true
      → write_events response w frames ≡ (w, replicate (length frames) client_gone)
  unfolding write_events
  write_events-broken w [] h = refl
  write_events-broken w ((name, payload) ∷ frames) h =
      rw (write_event-broken w name payload h, write_events-broken w frames h) refl

  write_events-append :
      (w : Writer S) (frames more : List (Bytes × Bytes))
      → (write_events response w (frames ++ more) ≡ (
          let first = write_events response w frames in
          let others = write_events response first.0 more in (others.0, first.1 ++ others.1)))
  unfolding write_events
  write_events-append w [] more = refl
  write_events-append w ((name, payload) ∷ frames) more =
      rw (write_events-append (write_event response w name payload).0 frames more) refl

  failed-broken :
      (w : Writer S) (name payload : Bytes)
      → (write_event response w name payload).1 ≡ write_failed
      → (write_event response w name payload).0.broken ≡ true
  unfolding write_event
  failed-broken w name payload h = ground arith

  last-broken :
      (w : Writer S) (frames : List (Bytes × Bytes)) (name payload : Bytes)
      → (write_event response (write_events response w frames).0 name payload).1 ≡ write_failed
      → (write_events response w (frames ++ (name, payload) ∷ [])).0.broken ≡ true
  unfolding write_events
  last-broken w frames name payload h =
      rw (write_events-append w frames ((name, payload) ∷ []))
        (failed-broken (write_events response w frames).0 name payload h)

  -- Whatever the connection does: once a write has failed, nothing more is sent to it, and every
  -- later call of WriteEvent answers ErrClientGone.
  pub write_events-gone :
      (w : Writer S) (frames : List (Bytes × Bytes)) (name payload : Bytes)
      (later : List (Bytes × Bytes))
      → (write_event response (write_events response w frames).0 name payload).1 ≡ write_failed
      → write_events response w ((frames ++ (name, payload) ∷ []) ++ later) ≡ (
        (write_events response w (frames ++ (name, payload) ∷ [])).0,
        (write_events response w (frames ++ (name, payload) ∷ [])).1
            ++ replicate (length later) client_gone,
      )
  write_events-gone w frames name payload later h =
      let told = frames ++ (name, payload) ∷ [] in
      rw
        (
          write_events-append w told later,
          write_events-broken (write_events response w told).0 later
              (last-broken w frames name payload h),
        )
        refl
