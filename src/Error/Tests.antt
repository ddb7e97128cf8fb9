-- ===== src/Error/Tests.antt =====
-- Messages of src/gpuarray_error.c.
use libgpuarray.Base.{◌≡◌, refl, pos, negsuc}
use libgpuarray.Error.{messages, gpuarray_error_str}

load_error : gpuarray_error_str "No such file" (pos 18) ≡ "Error loading library"
unfolding gpuarray_error_str messages
load_error = refl

sys_error : gpuarray_error_str "No such file" (pos 6) ≡ "No such file"
unfolding gpuarray_error_str messages
sys_error = refl

negative : gpuarray_error_str "No such file" (negsuc 0) ≡ "Unknown GA error"
unfolding gpuarray_error_str messages
negative = refl
