-- ===== src/Lib.antt =====
-- libtriton_jit: a C++ runtime that launches Triton kernels.
--
-- A launch takes the arguments of a kernel, writes a signature with one token for each of them,
-- and copies the runtime values into a buffer of parameters. The signature, the compile options and
-- the device name the compiled kernel in a cache. The backend launches it; the one for the NPU reads
-- the layout of the parameters out of the signature again.
--
-- The files and the code that they are about:
-- - Common: lists over native numbers, Boolean tests, results with an error, byte texts, signed
--   integers, decimal numerals.
-- - CacheKey: the cache key and the check of the compile options, include/triton_jit/jit_utils.h
--   (`validate_compile_options`, `make_kernel_cache_key`).
-- - Dtype: the names of element types, include/triton_jit/device_ptr.h, `to_triton_typename` of
--   include/triton_jit/jit_utils.h, `torch_dtype_name` of src/tuned_config.cpp.
-- - JitArg: kernels that are arguments, src/jit_function_arg.cpp. The file system is a parameter.
-- - Launch: the argument handler of include/triton_jit/triton_jit_function.h (`ParameterBuffer` in
--   Launch/Buffer, `ArgHandle` in Launch/Args) with the hints and type names of
--   include/triton_jit/jit_utils.h (Launch/Spec). The backend macro is an argument of the functions.
-- - Npu: `NpuArgInfo` and `parse_signature`, include/triton_jit/backends/npu_types.h and
--   npu_arg_buffer.h; Npu/Agreement compares it with the argument handler. Npu/Buffer is `NpuArgBuffer`,
--   Npu/Launch `prepare_launch` and `launch_kernel` of include/triton_jit/backends/npu_backend.h: the
--   answers of the device runtime are a parameter, the calls made of it a list.
-- - Metadata: the readers of src/kernel_metadata.cpp. The file system and the JSON library are
--   parameters.
-- - Backends: `load_kernel`, `get_shared_memory` and `launch_kernel` of the other backends,
--   include/triton_jit/backends/*_backend.h, a file for each, with the cache of modules that they share;
--   Npu/Load is that of the NPU. The device driver of each is a parameter.
-- - Kernel: `TritonKernelImpl` of include/triton_jit/triton_kernel.h, over the interface `BackendPolicy`
--   that Kernel/Policies fills with the backends. A launch loads the kernel unless Freeze refuses, and
--   runs the hooks of Hooks.
-- - Hooks: src/launch_hooks.cpp. Threads update the hooks by a compare-and-swap loop, as a step relation
--   on a shared pointer and the place of every thread in the loop.
-- - Tuned: tables of tuned configurations, src/tuned_config.cpp and
--   include/triton_jit/tuned_config.h: key strategies and normalised keys (Tuned/Key),
--   configurations (Tuned/Config), the check of a fingerprint (Tuned/Fingerprint), the rows of a
--   kernel and their hash index (Tuned/Rows), the snapshots of `TunedTable` and `insert_resolved`
--   (Tuned/Table), `load` with the JSON library as a parameter (Tuned/Load), and `resolve`, with the
--   resolver as a parameter (Tuned/Resolve). The key of a launch chooses a configuration, whose
--   compile options go into the cache key. Loops that double the number of buckets or walk along a
--   chain have the number of rows as their bound.
-- - Freeze: the guard that forbids cold work, src/freeze.cpp.
-- - Overloads: the compiled kernels of a function, `get_kernel` of src/triton_jit_function.cpp; it
--   looks up the cache key, and compiles only where Freeze does not refuse.
-- - Tests: runs on concrete inputs.
--
-- A byte is a number, a text a list of them. `int` and `int64_t` are ℤ, with the bounds or the
-- wrap-around written where a value is computed; unsigned integers are ℕ. Floating-point numbers are
-- bit patterns. An exception is the `throw` of a result type, its message the constructor. A
-- compile-time dispatch on a C++ type is a match on a data type. Loops are structural recursion, or
-- recursion on a bound.
--
-- Not modelled: what the device runtimes, Python, torch and the JSON library do, whose answers are
-- parameters; the creation of device contexts; `load_from_env` and the callers that wait for a
-- resolver; logging; concurrency but that of the hooks; and the operators built on the runtime.
pub mod Backends
pub mod CacheKey
pub mod Common
pub mod Dtype
pub mod Freeze
pub mod Hooks
pub mod JitArg
pub mod Kernel
pub mod Launch
pub mod Metadata
pub mod Npu
pub mod Overloads
pub mod Tests
pub mod Tuned
