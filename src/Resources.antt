-- ===== src/Resources.antt =====
-- The resources of a function: `convert_fn_config_to_resources_config` (modal/_resources.py) and `parse_gpu_config`
-- (modal/gpu.py). Numbers of CPUs, `int` and `str.upper` are parameters.
use modal_client.Prelude.{
  ℕ, ◌^◌, leb, Bool, true, false, ◌==◌, Option, none, some, List, [], ◌∷◌, Result, ok, err, ◌>>=◌,
  if◌then◌else◌,
}
use modal_client.Prelude.Int.{ℤ, pos, negsuc, ltb_ℤ}
use modal_client.FilePatterns.Text.{Text}
pub mod Accepted
mod Examples

-- a request, or a request and a limit
pub data Amount (N : Type 0) : Type 0 where
  not_given : Amount N
  requested : N → Amount N
  limited : N → N → Amount N

-- `not cpu`, and `int(1000 * cpu)`
pub record CpuNumbers (N : Type 0) : Type 0 where
  pub is_zero : N → Bool
  pub milli : N → ℤ

-- `int(count_str)` and `str.upper`
pub record GpuTexts : Type 0 where
  pub int_of : Text → Option ℤ
  pub upper : Text → Text

-- `InvalidError` by its message, and the `ValueError` of a message's field
pub data ResourceError : Type 0 where
  no_cpu_request no_cpu_limit cpu_limit_below_request memory_limit_below_request : ResourceError
  invalid_gpu_count out_of_range : ResourceError

-- `modal.gpu.T4(...)` and the like are deprecated
pub data Gpu : Type 0 where
  no_gpu : Gpu
  gpu_config : Text → ℤ → Gpu
  gpu_text : Text → Gpu

pub record GpuConfig : Type 0 where
  pub gpu_type : Text
  pub count : ℕ

pub record Resources : Type 0 where
  pub milli_cpu : Option ℕ
  pub milli_cpu_max : Option ℕ
  pub gpu_config : GpuConfig
  pub memory_mb : ℕ
  pub memory_mb_max : ℕ
  pub ephemeral_disk_mb : Option ℕ
  pub rdma : Bool

-- a field of type uint32
abbrev pub uint32 : ℤ → Result ResourceError ℕ
uint32 (pos n) = if leb (2 ^ 32) n then err out_of_range else ok n
uint32 (negsuc n) = err out_of_range

abbrev pub optional_uint32 : Option ℤ → Result ResourceError (Option ℕ)
optional_uint32 none = ok none
optional_uint32 (some z) = uint32 z >>= λ n. ok (some n)

-- `value.split(":", 1)`, if there is a colon
abbrev pub split_colon : Text → Option (Text × Text)
split_colon [] = none
split_colon (c ∷ value) =
    if c == 58
    then some ([], value)
    else elim (split_colon value) [ none ↦ none | some halves ↦ some (c ∷ halves.0, halves.1) ]

abbrev pub gpu_message : Text → ℤ → Result ResourceError GpuConfig
gpu_message gpu_type count = uint32 count >>= λ n. ok (record { gpu_type = gpu_type; count = n })

abbrev pub counted_gpu : GpuTexts → Text → Option ℤ → Result ResourceError GpuConfig
counted_gpu texts value none = err invalid_gpu_count
counted_gpu texts value (some count) = gpu_message (texts.upper value) count

abbrev pub gpu_from : GpuTexts → Text → Option (Text × Text) → Result ResourceError GpuConfig
gpu_from texts value none = gpu_message (texts.upper value) (pos 1)
gpu_from texts value (some (gpu_type, count_str)) =
    counted_gpu texts gpu_type (texts.int_of count_str)

unfoldable pub parse_gpu_config : GpuTexts → Gpu → Result ResourceError GpuConfig
parse_gpu_config texts no_gpu = ok (record { gpu_type = []; count = 0 })
parse_gpu_config texts (gpu_config gpu_type count) = gpu_message gpu_type count
parse_gpu_config texts (gpu_text value) = gpu_from texts value (split_colon value)

-- `milli_cpu` and `milli_cpu_max`
abbrev pub cpu_request :
    {N : Type 0} → CpuNumbers N → Amount N → Result ResourceError (Option ℤ × Option ℤ)
cpu_request numbers not_given = ok (none, none)
cpu_request numbers (requested cpu) =
    if numbers.is_zero cpu then ok (none, none) else ok (some (numbers.milli cpu), none)
cpu_request numbers (limited cpu limit) =
    if numbers.is_zero cpu
    then err no_cpu_request
    else if numbers.is_zero limit
    then err no_cpu_limit
    else if ltb_ℤ (numbers.milli limit) (numbers.milli cpu)
    then err cpu_limit_below_request
    else ok (some (numbers.milli cpu), some (numbers.milli limit))

-- `memory_mb` and `memory_mb_max`, of which 0 is no limit
abbrev pub memory_request : Amount ℤ → Result ResourceError (ℤ × ℤ)
memory_request not_given = ok (pos 0, pos 0)
memory_request (requested memory) = ok (memory, pos 0)
memory_request (limited memory limit) =
    if ltb_ℤ limit memory then err memory_limit_below_request else ok (memory, limit)

unfoldable pub convert_fn_config_to_resources_config :
    {N : Type 0}
    → CpuNumbers N
    → GpuTexts
    → Amount N
    → Amount ℤ
    → Gpu
    → Option ℤ
    → Bool
    → Result ResourceError Resources
unfolding parse_gpu_config
convert_fn_config_to_resources_config numbers texts cpu memory gpu ephemeral_disk rdma =
    parse_gpu_config texts gpu >>= λ config. cpu_request numbers cpu >>= λ c.
    memory_request memory >>= λ m. optional_uint32 c.0 >>= λ milli_cpu.
    optional_uint32 c.1 >>= λ milli_cpu_max. uint32 m.0 >>= λ memory_mb.
    uint32 m.1 >>= λ memory_mb_max. optional_uint32 ephemeral_disk >>= λ ephemeral_disk_mb.
    ok (record {
      milli_cpu = milli_cpu;
      milli_cpu_max = milli_cpu_max;
      gpu_config = config;
      memory_mb = memory_mb;
      memory_mb_max = memory_mb_max;
      ephemeral_disk_mb = ephemeral_disk_mb;
      rdma = rdma;
    })
