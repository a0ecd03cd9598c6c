-- ===== src/Writer/Laws.antt =====
-- What the methods of pkg/writer/writer.go keep, over any calls of them.
use tcp_gateway.Prelude.{ℕ, ◌≡◌, refl, ap, Option, some, List, [], ◌∷◌, arith}
use tcp_gateway.Bytes.{Bytes}
use tcp_gateway.Interfaces.{Error}
use tcp_gateway.Writer.{Writer, write, pop, flush}

-- A call of a method; a flush with what the connection answers.
pub data Call : Type 0 where
  writes : ℕ → Bytes → ℕ → Call
  pops : Call
  flushes : Option Error → Call

module _ (grow : ℕ → ℕ → ℕ) where
  -- The writer after a call, and the error that the call returns.
  unfoldable pub step : Writer → Call → Writer × Option Error
  step w (writes id msg seq) = write grow w id msg seq
  step w pops = let (w', b, e) = pop w in (w', e)
  step w (flushes answer) = flush w answer

  unfoldable pub run : Writer → List Call → Writer
  run w [] = w
  run w (c ∷ cs) = run (step w c).0 cs

  step_failed : (w : Writer) (e : Error) (c : Call) → w.err ≡ some e → step w c ≡ (w, some e)
  unfolding step write pop flush
  step_failed w e (writes id msg seq) h = ground arith
  step_failed w e pops h = ground arith
  step_failed w e (flushes answer) h = ground arith

  -- Once the connection has failed, every method returns that error and changes nothing, whatever
  -- was called in between.
  pub run_failed :
      (w : Writer) (e : Error) (cs : List Call) (c : Call)
      → w.err ≡ some e
      → (run w cs ≡ w) × (step (run w cs) c ≡ (w, some e))
  unfolding run
  run_failed w e [] c h = (refl, step_failed w e c h)
  run_failed w e (c' ∷ cs) c h =
      rw (ap (λ (r : Writer × Option Error). r.0) (step_failed w e c' h)) (run_failed w e cs c h)
