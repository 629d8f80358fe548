-- ===== src/Emitter/Streams.antt =====
-- Streams of events and what one send does to them (emitter.go).
use mathlib.Core.Path.{subst}
use kaana.Prelude.{
  ℕ, suc, ◌+◌, String, ◌≡◌, refl, Bool, true, false, Option, none, some, List, [], ◌∷◌, ◌++◌, arith,
  length, ◌∙◌, ap, sym, if◌then◌else◌, true≢false,
}
use kaana.Emitter.{Emitter, StreamEvent, Body, start, delta, usage, Sent, and_then}
use kaana.Emitter.Calls.{event_of, Emitted, refused, accepted, lost}
use kaana.Emitter.Grammar.{
  Phase, before, streaming, ended, next_phase, advance, parse, parse-append, Numbered,
  Numbered-append, Rising, Rising-append, Rising-mono, AllOf, AllOf-append, length-append_one,
}

-- Where the emitter's flags say that the stream stands.
abbrev pub phase : Bool → Bool → Phase
phase true started = ended
phase false true = streaming
phase false false = before

-- What may be held behind a start event.
abbrev pub IsHeld : Body → Type 0
IsHeld (delta _ _ _) = Unit
IsHeld (usage _ _ _) = Unit
IsHeld _ = ⊥

abbrev pub AllHeld : List Body → Type 0
AllHeld [] = Unit
AllHeld (b ∷ bs) = IsHeld b × AllHeld bs

abbrev pub IsStart : Option Body → Type 0
IsStart none = Unit
IsStart (some (start _ _ _ _)) = Unit
IsStart (some _) = ⊥

pub AllHeld-append : (bs : List Body) (b : Body) → AllHeld bs → IsHeld b → AllHeld (bs ++ b ∷ [])
AllHeld-append [] b h k = (k, tt)
AllHeld-append (x ∷ bs) b h k = (h.0, AllHeld-append bs b h.1 k)

-- A stream of a request's events: they carry its id and strictly rising sequence numbers. Where the
-- sink never failed, they are a stream by the grammar that has reached the phase p, and are numbered
-- from 0 with no gap; while the stream goes on the next number is their count.
pub record IsStream (p : Phase) (id : String) (evs : List StreamEvent) (sequence : ℕ)
    (sink_failed terminated : Bool) : Type 0 where
  pub named : AllOf id evs
  pub rising : Rising 0 sequence evs
  pub ordered : sink_failed ≡ false → parse (some before) evs ≡ some p
  pub numbered : sink_failed ≡ false → Numbered 0 evs
  pub counted : sink_failed ≡ false → terminated ≡ false → sequence ≡ length evs

module _ {S : Type 0} where
  -- The stream that the emitter has written, at a phase.
  abbrev pub StreamAt : Phase → Emitter S → Type 0
  StreamAt p e = IsStream p e.request_id e.written e.sequence e.sink_failed e.terminated

  abbrev pub Holds : Emitter S → Type 0
  Holds e = AllHeld e.pending × IsStart e.pending_start

  abbrev pub IsFramed : Emitter S → Type 0
  IsFramed e = StreamAt (phase e.terminated e.started) e × Holds e

  -- A send that may take the stream from p to p'.
  abbrev pub Allowed : Phase → Phase → Body → Emitter S → Type 0
  Allowed p p' body e = e.terminated ≡ false → next_phase p body ≡ some p'

  pub Emitted-StreamAt :
      (p p' : Phase) (body : Body) (e : Emitter S) (r : Sent S)
      → Emitted body e r
      → Allowed p p' body e
      → StreamAt p e
      → StreamAt (if e.terminated then p else p') r.0
  Emitted-StreamAt p p' body e r (refused t q) n f = rw q (
      rw t (record {
        named = f.named;
        rising = Rising-mono 0 e.sequence (e.sequence + 1) e.written (omega arith) f.rising;
        ordered = f.ordered;
        numbered = f.numbered;
        counted = λ x y. absurd (true≢false y);
      }))
  Emitted-StreamAt p p' body e r (accepted s t q) n f = rw q (
      rw t (record {
        named = AllOf-append e.request_id e.written _ f.named refl;
        rising =
            let grown =
              Rising-append 0 e.sequence e.written (event_of body e) f.rising (omega arith) in
            Rising-mono 0 (suc e.sequence) (e.sequence + 1) _ (omega arith) grown;
        ordered = λ ok.
            parse-append (some before) e.written (event_of body e)
            ∙ ap (λ o. advance o body) (f.ordered ok)
            ∙ n t;
        numbered = λ ok.
            Numbered-append 0 e.written (event_of body e) (f.numbered ok)
              (omega (arith, f.counted ok t));
        counted =
            λ ok _. omega (arith, f.counted ok t, length-append_one e.written (event_of body e));
      }))
  Emitted-StreamAt p p' body e r (lost s t q) n f = rw q (
      rw t (record {
        named = f.named;
        rising = Rising-mono 0 e.sequence (e.sequence + 1) e.written (omega arith) f.rising;
        ordered = λ ok. absurd (true≢false ok);
        numbered = λ ok. absurd (true≢false ok);
        counted = λ ok _. absurd (true≢false ok);
      }))

  -- What a send leaves alone.
  pub record SameFlags (e e' : Emitter S) : Type 0 where
    pub starting : e'.started ≡ e.started
    pub ending : e'.terminated ≡ e.terminated
    pub holding : e'.pending ≡ e.pending
    pub holding_start : e'.pending_start ≡ e.pending_start

  pub Emitted-SameFlags :
      (body : Body) (e : Emitter S) (r : Sent S) → Emitted body e r → SameFlags e r.0
  Emitted-SameFlags body e r (refused t q) =
      rw q (record { starting = refl; ending = refl; holding = refl; holding_start = refl })
  Emitted-SameFlags body e r (accepted s t q) =
      rw q (record { starting = refl; ending = refl; holding = refl; holding_start = refl })
  Emitted-SameFlags body e r (lost s t q) =
      rw q (record { starting = refl; ending = refl; holding = refl; holding_start = refl })

  pub shift : (p p' : Phase) (e : Emitter S) → p ≡ p' → StreamAt p e → StreamAt p' e
  shift p p' e q h = subst (λ x. StreamAt x e) q h

  pub Holds-same : (e e' : Emitter S) → SameFlags e e' → Holds e → Holds e'
  Holds-same e e' m h = (subst AllHeld (sym m.holding) h.0, subst IsStart (sym m.holding_start) h.1)

pub either : {A : Type 0} (x : A) (b : Bool) → (if b then x else x) ≡ x
either x true = refl
either x false = refl

-- `and_then` keeps what both its parts keep.
pub and_then_keeps :
    {S : Type 0} (P : Emitter S → Type 0) (m : Sent S) (k : Emitter S → Sent S)
    → P m.0
    → ((e : Emitter S) → P e → P (k e).0)
    → P (and_then m k).0
and_then_keeps P (e, none) k h next = next e h
and_then_keeps P (e, some x) k h next = h

-- Both branches of a test keep what each keeps.
pub test_keeps :
    {S : Type 0} (P : Emitter S → Type 0) (b : Bool) (m m' : Sent S)
    → P m.0
    → P m'.0
    → P (if b then m else m').0
test_keeps P true m m' h h' = h
test_keeps P false m m' h h' = h'

pub unless_keeps :
    {S : Type 0} (P : Emitter S → Type 0) (b : Bool) (m m' : Sent S)
    → P m.0
    → (b ≡ false → P m'.0)
    → P (if b then m else m').0
unless_keeps P true m m' h h' = h
unless_keeps P false m m' h h' = h' refl
