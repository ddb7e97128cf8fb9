-- ===== src/Error.antt =====
-- The messages of src/gpuarray_error.c, over the codes of src/gpuarray/error.h.
mod Tests
use libgpuarray.Base.{Bool, true, false, ℕ, List, [], ◌∷◌, get_elem?, Option, ℤ, pos, negsuc}
use Prim.Native.String.{String}

-- `enum ga_error`
pub data GaError : Type 0 where
  no_error memory_error value_error impl_error invalid_error unsupported_error sys_error : GaError
  run_error devsup_error readonly_error writeonly_error blas_error unaligned_error : GaError
  copy_error nodev_error misc_error comm_error xlarge_error load_error : GaError

-- err != GA_NO_ERROR
abbrev pub failed : GaError → Bool
failed GaError.no_error = false
failed _ = true

-- The message of the codes from 0 on, in the order of `enum ga_error`. The argument is what
-- `strerror(errno)` answers.
unfoldable pub messages : String → List String
messages strerror =
    "No error" ∷ "Out of memory" ∷ "Value invalid or out of range" ∷ "Unknown device error"
    ∷ "Invalid value or operation" ∷ "Unsupported operation" ∷ strerror
    ∷ "Could not execute helper program" ∷ "Device does not support operation"
    ∷ "Buffer is read-only" ∷ "Buffer is write-only" ∷ "Error in BLAS call" ∷ "Unaligned array"
    ∷ "Copy is needed but disallowed by parameters" ∷ "No devices are available"
    ∷ "Undeterminate error" ∷ "Error in collectives call" ∷ "Input size too large for operation"
    ∷ "Error loading library" ∷ []

abbrev or_unknown : Option String → String
or_unknown (Option.some message) = message
or_unknown Option.none = "Unknown GA error"

unfoldable pub gpuarray_error_str : String → ℤ → String
gpuarray_error_str strerror (pos err) = or_unknown (get_elem? (messages strerror) err)
gpuarray_error_str strerror (negsuc err) = "Unknown GA error"
