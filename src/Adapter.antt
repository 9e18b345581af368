-- ===== src/Adapter.antt =====
-- src/samplerate_adapter.rs: the binding to the separately built converter. The callbacks are a
-- parameter: `C` is what the opaque handle points to, and a callback that takes the handle returns
-- its new content. A pointer that may be null is an `Option`.
pub mod Bounds
use rate_adjusting_pcm_ring.Common.{
  ℕ, zero, suc, ◌≡◌, List, [], ◌∷◌, ◌++◌, Option, none, some, Bool, true, false, not, ◌&&◌, ◌||◌,
  length, ltb, ==_iff, ◌==◌, if◌then◌else◌, take, drop,
}
use rate_adjusting_pcm_ring.Common.Int.{ℤ, pos, negsuc}
use rate_adjusting_pcm_ring.Float.{Double}

-- What one call of the `process` callback leaves: its result, the handle's content, what it wrote to
-- the output slice, and its two counts.
pub record Processed (F C : Type 0) : Type 0 where
  pub result : ℤ
  pub handle : C
  pub samples : List F
  pub used : ℕ
  pub generated : ℕ

pub record AdapterFunctions (F R C : Type 0) : Type 0 where
  pub create : ℕ → ℕ → ℕ → ℕ → ℤ × Option C
  pub reset : C → ℤ × C
  pub process : C → List F → ℕ → R → Processed F C
  pub queued_input : C → ℤ × ℕ × C
  pub output_delay : C → ℤ × ℕ × C
  pub input_delay : C → ℤ × ℤ × C

-- `converter_destroy` only frees memory, so its presence is all that the model keeps of it.
pub record AdapterDescriptor (F R C : Type 0) : Type 0 where
  pub struct_size : ℕ
  pub abi_version : ℕ
  pub capability_name : Option (List ℕ)
  pub converter_create : Option (ℕ → ℕ → ℕ → ℕ → ℤ × Option C)
  pub converter_reset : Option (C → ℤ × C)
  pub converter_process : Option (C → List F → ℕ → R → Processed F C)
  pub converter_destroy : Bool
  pub converter_queued_input : Option (C → ℤ × ℕ × C)
  pub converter_output_delay : Option (C → ℤ × ℕ × C)
  pub converter_input_delay : Option (C → ℤ × ℤ × C)

abbrev pub adapter_abi_version : ℕ
adapter_abi_version = 2

-- `size_of::<AdapterDescriptor>()` on a 64-bit target: two words of 4 bytes and eight of 8.
abbrev pub descriptor_size : ℕ
descriptor_size = 72

-- "rptadv.samplerate", without the closing NUL.
abbrev pub required_capability : List ℕ
required_capability =
    b'r' ∷ b'p' ∷ b't' ∷ b'a' ∷ b'd' ∷ b'v' ∷ b'.' ∷ b's' ∷ b'a' ∷ b'm' ∷ b'p' ∷ b'l' ∷ b'e' ∷ b'r'
    ∷ b'a' ∷ b't' ∷ b'e' ∷ []

-- `result == ADAPTER_OK`
abbrev pub adapter_ok : ℤ → Bool
adapter_ok (pos zero) = true
adapter_ok (pos (suc n)) = false
adapter_ok (negsuc n) = false

abbrev pub same_bytes : List ℕ → List ℕ → Bool
same_bytes [] [] = true
same_bytes (x ∷ xs) (y ∷ ys) = x == y && same_bytes xs ys
same_bytes _ _ = false

infixl 5 ◌>>=◌
abbrev ◌>>=◌ : {A B : Type 0} → Option A → (A → Option B) → Option B
none >>= f = none
some a >>= f = f a

infixl 5 ◌>>◌
abbrev ◌>>◌ : {B : Type 0} → Option (Unit {0}) → Option B → Option B
m >> k = m >>= λ _. k

abbrev guard : Bool → Option (Unit {0})
guard true = some tt
guard false = none

module _ {F R C : Type 0} where
  unfoldable pub from_descriptor :
      Option (AdapterDescriptor F R C) → Option (AdapterFunctions F R C)
  from_descriptor descriptor = do
    d ← descriptor
    guard (not (ltb d.struct_size descriptor_size || not (d.abi_version == adapter_abi_version)))
    capability ← d.capability_name
    guard (same_bytes capability required_capability)
    create ← d.converter_create
    reset ← d.converter_reset
    process ← d.converter_process
    guard d.converter_destroy
    queued_input ← d.converter_queued_input
    output_delay ← d.converter_output_delay
    input_delay ← d.converter_input_delay
    some (record {
      create = create;
      reset = reset;
      process = process;
      queued_input = queued_input;
      output_delay = output_delay;
      input_delay = input_delay;
    })

-- A callback's negative delay is an error.
abbrev delay_of : ℤ → ℤ → Option ℕ
delay_of result (pos n) = if adapter_ok result then some n else none
delay_of result (negsuc n) = none

pub record Converter (F R C : Type 0) : Type 0 where
  pub handle : C
  pub functions : AdapterFunctions F R C
  pub output_delay_samples : ℕ

module _ {F R C : Type 0} where
  -- `true` is `Ok(())`.
  unfoldable pub reset : Converter F R C → Bool × Converter F R C
  reset c =
      let (result, handle) = c.functions.reset c.handle in
      (adapter_ok result, record c { handle = handle })

  unfoldable pub input_delay : Converter F R C → Option ℕ × Converter F R C
  input_delay c =
      let (result, delay, handle) = c.functions.input_delay c.handle in
      (delay_of result delay, record c { handle = handle })

  unfoldable pub queued_input : Converter F R C → Option ℕ × Converter F R C
  queued_input c =
      let (result, frames, handle) = c.functions.queued_input c.handle in
      (if adapter_ok result then some frames else none, record c { handle = handle })

  unfoldable pub create_converter :
      AdapterFunctions F R C → ℕ → ℕ → ℕ → ℕ → Option (Converter F R C)
  unfolding reset
  create_converter functions input_rate output_rate max_input max_output =
      let (result, created) = functions.create input_rate output_rate max_input max_output in
      do
        guard (adapter_ok result)
        handle ← created
        let (done, converter) =
            reset (record { handle = handle; functions = functions; output_delay_samples = 0 })
        guard done
        let (result', delay, handle') = functions.output_delay converter.handle
        guard (adapter_ok result')
        some (record converter { handle = handle'; output_delay_samples = delay })

  module _ ⦃double : Double R⦄ where
    -- The output slice is `output[..count]`: the callback overwrites at most that prefix.
    -- The result is the counts of consumed input and generated output.
    unfoldable pub process :
        Converter F R C → List F → List F → ℕ → R → Option (ℕ × ℕ) × List F × Converter F R C
    process c input output count ratio =
        if count == 0 || not (double.is_finite ratio) || double.le ratio (double.of_count 0)
        then (none, output, c)
        else let p = c.functions.process c.handle input count ratio in
          let written = take count p.samples in
          (
            if not (adapter_ok p.result) || ltb (length input) p.used || ltb count p.generated
                then none
                else some (p.used, p.generated),
            written ++ drop (length written) output,
            record c { handle = p.handle },
          )
