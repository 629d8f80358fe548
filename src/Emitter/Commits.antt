-- ===== src/Emitter/Commits.antt =====
-- What a commit, a held event and a terminal event do to a framed stream (emitter.go).
use mathlib.Core.Path.{subst}
use kaana.Prelude.{
  ◌≡◌, refl, Bool, true, false, Option, none, some, List, [], ◌∷◌, ◌++◌, arith, ◌∙◌, ap, sym,
  if◌then◌else◌, true≢false,
}
use kaana.Emitter.{
  Emitter, StreamEvent, Body, start, delta, tool_call, usage, audio, route_switch, done, failed,
  Sent, emit, emit_all, and_then, send_or_hold, release, commit, terminate,
}
use kaana.Emitter.Calls.{emit-Emitted}
use kaana.Emitter.Grammar.{Phase, streaming, ended, next_phase}
use kaana.Emitter.Streams.{
  phase, IsHeld, AllHeld, IsStart, AllHeld-append, StreamAt, IsFramed, Allowed, Emitted-StreamAt,
  SameFlags, Emitted-SameFlags, shift, Holds-same, either, and_then_keeps,
}

module _ {S : Type 0} (sink : S → StreamEvent → S × Bool) where
  -- A send that moves the stream from p to p' leaves it there, unless it had ended.
  pub emit-StreamAt :
      (p p' : Phase) (body : Body) (e : Emitter S)
      → Allowed p p' body e
      → StreamAt p e
      → StreamAt (if e.terminated then p else p') (emit sink body e).0
  emit-StreamAt p p' body e = Emitted-StreamAt p p' body e _ (emit-Emitted sink body e)

  pub emit-SameFlags : (body : Body) (e : Emitter S) → SameFlags e (emit sink body e).0
  emit-SameFlags body e = Emitted-SameFlags body e _ (emit-Emitted sink body e)

  -- A send within a phase keeps the frame.
  pub emit-IsFramed :
      (body : Body) (e : Emitter S)
      → Allowed (phase e.terminated e.started) (phase e.terminated e.started) body e
      → IsFramed e
      → IsFramed (emit sink body e).0
  emit-IsFramed body e n f =
      let m = emit-SameFlags body e in
      (
        shift _ _ (emit sink body e).0 (same_phase m) (
            emit-StreamAt (phase e.terminated e.started) (phase e.terminated e.started) body e n
              f.0),
        Holds-same e (emit sink body e).0 m f.1,
      )
    where
      same_phase :
          SameFlags e (emit sink body e).0
          → (if e.terminated then phase e.terminated e.started else phase e.terminated e.started)
            ≡ phase (emit sink body e).0.terminated (emit sink body e).0.started
      same_phase m = either _ e.terminated ∙ same_flags m
        where
          same_flags :
              SameFlags e (emit sink body e).0
              → phase e.terminated e.started
                ≡ phase (emit sink body e).0.terminated (emit sink body e).0.started
          same_flags m' = cc (m'.starting, m'.ending)

  -- An emitter that has committed.
  abbrev pub IsLive : Emitter S → Type 0
  IsLive e = IsFramed e × (e.started ≡ true)

  pub live_phase :
      (e : Emitter S)
      → e.started ≡ true
      → e.terminated ≡ false
      → phase e.terminated e.started ≡ streaming
  live_phase e s t = rw s (rw t refl)

  pub emit-IsLive :
      (body : Body) (e : Emitter S)
      → next_phase streaming body ≡ some streaming
      → IsLive e
      → IsLive (emit sink body e).0
  emit-IsLive body e n (f, s) = (
    emit-IsFramed body e (λ t. subst (λ p. next_phase p body ≡ some p) (sym (live_phase e s t)) n)
        f,
    (emit-SameFlags body e).starting ∙ s,
  )

  pub held_follows : (b : Body) → IsHeld b → next_phase streaming b ≡ some streaming
  held_follows (delta _ _ _) h = refl
  held_follows (usage _ _ _) h = refl
  held_follows (start _ _ _ _) h = absurd h
  held_follows (tool_call _ _ _ _) h = absurd h
  held_follows (audio _ _ _) h = absurd h
  held_follows (route_switch _ _ _) h = absurd h
  held_follows (done _ _ _) h = absurd h
  held_follows (failed _) h = absurd h

  pub emit_all-IsLive :
      (bs : List Body) (e : Emitter S) → AllHeld bs → IsLive e → IsLive (emit_all sink bs e).0
  unfolding emit_all
  emit_all-IsLive [] e h l = l
  emit_all-IsLive (b ∷ bs) e h l =
      and_then_keeps IsLive (emit sink b e) (λ e'. emit_all sink bs e')
        (emit-IsLive b e (held_follows b h.0) l) (λ e' l'. emit_all-IsLive bs e' h.1 l')

  -- The stream is framed, and started unless there was an error.
  abbrev pub Committed : Sent S → Type 0
  Committed m = IsFramed m.0 × (m.1 ≡ none → m.0.started ≡ true)

  release-IsLive :
      (start_body : Body) (held : List Body) (e : Emitter S)
      → IsStart (some start_body)
      → AllHeld held
      → e.started ≡ false
      → IsFramed e
      → IsLive (release sink (some start_body) held e).0
  unfolding release
  release-IsLive (delta _ _ _) held e i h s f = absurd i
  release-IsLive (usage _ _ _) held e i h s f = absurd i
  release-IsLive (tool_call _ _ _ _) held e i h s f = absurd i
  release-IsLive (audio _ _ _) held e i h s f = absurd i
  release-IsLive (route_switch _ _ _) held e i h s f = absurd i
  release-IsLive (done _ _ _) held e i h s f = absurd i
  release-IsLive (failed _) held e i h s f = absurd i
  release-IsLive (start g r p t) held e i h s f =
      and_then_keeps IsLive (emit sink start_body first) (λ e'. emit_all sink held e') live
        (λ e' l'. emit_all-IsLive held e' h l')
    where
      start_body : Body
      start_body = start g r p t

      first : Emitter S
      first = record e { started = true; pending_start = none; pending = [] }

      begun : (b : Bool) → (if b then phase b false else streaming) ≡ phase b true
      begun true = refl
      begun false = refl

      live : IsLive (emit sink start_body first).0
      live =
          let m = emit-SameFlags start_body first in
          (
            (
              shift _ _ (emit sink start_body first).0
                  (begun e.terminated
                    ∙ sym (ap (λ x. phase x true) m.ending)
                    ∙ sym (ap (λ x. phase (emit sink start_body first).0.terminated x) m.starting))
                  (emit-StreamAt (phase e.terminated false) streaming start_body first
                    (λ t'. rw t' refl) (shift _ _ first (ap (phase e.terminated) s) f.0)),
              Holds-same first (emit sink start_body first).0 m (tt, tt),
            ),
            m.starting,
          )

  pub commit-Committed : (e : Emitter S) → IsFramed e → Committed (commit sink e)
  unfolding commit
  commit-Committed e f = choose e.started e.pending_start refl refl
    where
      choose :
          (b : Bool) (o : Option Body)
          → e.started ≡ b
          → e.pending_start ≡ o
          → Committed (if b then (e, none) else release sink o e.pending e)
      choose true o s q = (f, λ _. s)
      choose false none s q = (f, λ x. ground arith)
      choose false (some b) s q =
          let l = release-IsLive b e.pending e (subst IsStart q f.1.1) f.1.0 s f in (l.0, λ _. l.1)

  -- After a commit that returned nil, the stream has started.
  pub Committed-then :
      (m : Sent S) (k : Emitter S → Sent S)
      → Committed m
      → ((e : Emitter S) → IsLive e → IsFramed (k e).0)
      → IsFramed (and_then m k).0
  Committed-then (e, none) k c next = next e (c.0, c.1 refl)
  Committed-then (e, some x) k c next = c.0

  pub send_or_hold-IsFramed :
      (body : Body) (e : Emitter S)
      → IsHeld body
      → IsFramed e
      → IsFramed (send_or_hold sink body e).0
  unfolding send_or_hold
  send_or_hold-IsFramed body e h f = choose e.started refl
    where
      choose :
          (b : Bool)
          → e.started ≡ b
          → IsFramed
              (if b
                then emit sink body e
                else (record e { pending = e.pending ++ body ∷ [] }, none)).0
      choose true s = (emit-IsLive body e (held_follows body h) (f, s)).0
      choose false s = (f.0, (AllHeld-append e.pending body f.1.0 h, f.1.1))

  -- A send that ends the stream.
  pub close-IsFramed :
      (body : Body) (e : Emitter S)
      → (e.terminated ≡ false → next_phase (phase false e.started) body ≡ some ended)
      → IsFramed e
      → IsFramed (terminate sink (emit sink body e)).0
  close-IsFramed body e n f = (
    closed (emit sink body e).0 (
        shift _ _ (emit sink body e).0 (at_end e.terminated e.started) (
          emit-StreamAt (phase e.terminated e.started) ended body e
            (λ t. subst (λ b. next_phase (phase b e.started) body ≡ some ended) (sym t) (n t))
            f.0)),
    Holds-same e (emit sink body e).0 (emit-SameFlags body e) f.1,
  )
    where
      at_end : (t s : Bool) → (if t then phase t s else ended) ≡ ended
      at_end true s = refl
      at_end false s = refl

      closed :
          (e' : Emitter S) → StreamAt ended e' → StreamAt ended (record e' { terminated = true })
      closed e' h = record {
        named = h.named;
        rising = h.rising;
        ordered = h.ordered;
        numbered = h.numbered;
        counted = λ _ t. absurd (true≢false t);
      }
