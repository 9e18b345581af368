-- ===== src/Adapter/Bounds.antt =====
-- What src/samplerate_adapter.rs lets through of a converter that misbehaves.
use rate_adjusting_pcm_ring.Common.{
  ℕ, ◌≤◌, ◌≡◌, refl, ◌∙◌, List, some, Bool-cases, not, ◌||◌, inl, inr, arith, length, length-append,
  length-take, length-drop, take, drop, ◌==◌,
}
use rate_adjusting_pcm_ring.Float.{Double}
use rate_adjusting_pcm_ring.Adapter.{Converter, process}

module _ {F R C : Type 0} ⦃double : Double R⦄ where
  -- Whatever the callback reports or writes, the workspace keeps its length, and an accepted result
  -- never claims more input than it was given or more output than it was asked for.
  pub process_bounds :
      (c : Converter F R C) (input output : List F) (count : ℕ) (ratio : R)
      → count ≤ length output
      → let (out, output', c') = process c input output count ratio in
        (length output' ≡ length output)
        × ((used generated : ℕ)
            → out ≡ some (used, generated)
            → (used ≤ length input) × (generated ≤ count))
  unfolding process
  process_bounds c input output count ratio fits =
      elim (Bool-cases
        (count == 0 || not (double.is_finite ratio) || double.le ratio (double.of_count 0))) [
          | inl bad ↦ rw bad (refl, λ used generated e. cc)
          | inr good ↦
              let p = c.functions.process c.handle input count ratio in
              let written = take count p.samples in
              rw good (
                length-append written (drop (length written) output)
                    ∙ omega
                        (arith, length-take count p.samples, length-drop (length written) output),
                λ used generated e. ground arith,
              )
        ]
