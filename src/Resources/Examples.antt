-- ===== src/Resources/Examples.antt =====
-- Tests and concrete runs of modal/_resources.py and modal/gpu.py: CPUs in thousandths.
use modal_client.Prelude.{
  ℕ, ◌-◌, ◌≤◌, ◌<◌, ◌^◌, ◌≡◌, refl, ◌⊎◌, ◌==◌, false, none, some, [], ◌∷◌, ok, err,
}
use modal_client.Prelude.Int.{pos}
use modal_client.Resources.{
  not_given, requested, limited, CpuNumbers, GpuTexts, cpu_limit_below_request, no_gpu, gpu_text,
  Resources, parse_gpu_config, convert_fn_config_to_resources_config,
}
use modal_client.Resources.Accepted.{IsLimit, IsUint32, convert-IsLimit}

abbrev thousandths : CpuNumbers ℕ
thousandths = record { is_zero = λ n. n == 0; milli = pos }

-- one digit
abbrev plain_texts : GpuTexts
plain_texts = record {
  int_of = λ s. elim s [ [] ↦ none | d ∷ _ ↦ some (pos (d - 48)) ];
  upper = λ s. s;
}

four_gpus :
    parse_gpu_config plain_texts (gpu_text (84 ∷ 52 ∷ 58 ∷ 52 ∷ []))
    ≡ ok (record { gpu_type = 84 ∷ 52 ∷ []; count = 4 })
unfolding parse_gpu_config
four_gpus = refl

limit_too_low :
    convert_fn_config_to_resources_config thousandths plain_texts
      (limited 500 250)
      not_given
      no_gpu
      none
      false
    ≡ err cpu_limit_below_request
unfolding convert_fn_config_to_resources_config
limit_too_low = refl

abbrev accepted : Resources
accepted = record {
  milli_cpu = some 250;
  milli_cpu_max = some 500;
  gpu_config = record { gpu_type = []; count = 0 };
  memory_mb = 128;
  memory_mb_max = 0;
  ephemeral_disk_mb = none;
  rdma = false;
}

convert-IsLimit_example :
    IsLimit accepted.milli_cpu accepted.milli_cpu_max
    × ((accepted.memory_mb_max ≡ 0) ⊎ (accepted.memory_mb ≤ accepted.memory_mb_max))
    × IsUint32 accepted.milli_cpu
    × IsUint32 accepted.milli_cpu_max
    × (accepted.memory_mb < 2 ^ 32)
    × (accepted.memory_mb_max < 2 ^ 32)
    × IsUint32 accepted.ephemeral_disk_mb
    × (accepted.gpu_config.count < 2 ^ 32)
unfolding convert_fn_config_to_resources_config
convert-IsLimit_example =
    convert-IsLimit thousandths plain_texts (limited 250 500) (requested (pos 128)) no_gpu none
      false accepted refl
