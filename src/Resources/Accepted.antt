-- ===== src/Resources/Accepted.antt =====
-- Which resources are accepted (modal/_resources.py and modal/gpu.py).
use modal_client.Prelude.{
  ℕ, ◌≤◌, ◌<◌, ◌^◌, ◌≡◌, refl, ◌∙◌, ap, subst, ◌⊎◌, inl, inr, leb, Bool, false, ◌||◌, Bool-cases,
  Option, none, some, Result, ok, bind-ok, arith,
}
use modal_client.Prelude.Int.{ℤ, pos, negsuc, ltb_ℤ}
use modal_client.FilePatterns.Text.{Text}
use modal_client.Resources.{
  Amount, not_given, requested, limited, CpuNumbers, GpuTexts, ResourceError, Gpu, Resources,
  uint32, optional_uint32, parse_gpu_config, GpuConfig, gpu_message, counted_gpu, gpu_from,
  split_colon, no_gpu, gpu_config, gpu_text, cpu_request, memory_request,
  convert_fn_config_to_resources_config,
}

-- a limit comes with a request, which is not above it
abbrev pub IsLimit : Option ℕ → Option ℕ → Type 0
IsLimit _ none = Unit
IsLimit none (some limit) = ⊥
IsLimit (some request) (some limit) = request ≤ limit

abbrev pub IsUint32 : Option ℕ → Type 0
IsUint32 none = Unit
IsUint32 (some n) = n < 2 ^ 32

-- what holds of the resources that are accepted
abbrev IsAccepted : Resources → Type 0
IsAccepted r =
    IsLimit r.milli_cpu r.milli_cpu_max
    × ((r.memory_mb_max ≡ 0) ⊎ (r.memory_mb ≤ r.memory_mb_max))
    × IsUint32 r.milli_cpu
    × IsUint32 r.milli_cpu_max
    × (r.memory_mb < 2 ^ 32)
    × (r.memory_mb_max < 2 ^ 32)
    × IsUint32 r.ephemeral_disk_mb
    × (r.gpu_config.count < 2 ^ 32)

abbrev signed : Option ℕ → Option ℤ
signed none = none
signed (some n) = some (pos n)

uint32-ok : (z : ℤ) (n : ℕ) → uint32 z ≡ ok n → (z ≡ pos n) × (n < 2 ^ 32)
uint32-ok (pos m) n e = elim (Bool-cases (leb (2 ^ 32) m)) [
  | inl large ↦ absurd (ground (arith, e, large))
  | inr small ↦
      let same : m ≡ n = grind (arith, e, small) in (ap pos same, ground (arith, small, same))
]
uint32-ok (negsuc m) n e = absurd (ground (arith, e))

optional_uint32-ok :
    (o : Option ℤ) (n : Option ℕ) → optional_uint32 o ≡ ok n → (o ≡ signed n) × IsUint32 n
optional_uint32-ok none none e = (refl, tt)
optional_uint32-ok none (some n) e = absurd (grind (arith, e))
optional_uint32-ok (some z) none e =
    let (m, made, after) = bind-ok (uint32 z) _ none e in absurd (grind (arith, after))
optional_uint32-ok (some z) (some n) e =
    let (m, made, after) = bind-ok (uint32 z) _ (some n) e in
    let (is, small) = uint32-ok z m made in
    let same : m ≡ n = grind (arith, after) in
    (ap (λ y. some y) (is ∙ ap pos same), subst (λ k. k < 2 ^ 32) same small)

same_resources : (r s : Resources) → ◌≡◌ {A = Result ResourceError Resources} (ok r) (ok s) → r ≡ s
same_resources r s e = grind (arith, e)

pair-IsLimit :
    (a : Option ℕ) (limit : ℕ) (m l : ℤ)
    → ◌≡◌ {A = Result ResourceError (Option ℤ × Option ℤ)}
        (ok (some m, some l))
        (ok (signed a, some (pos limit)))
    → ltb_ℤ l m ≡ false
    → IsLimit a (some limit)
pair-IsLimit none limit m l e h = absurd (grind (arith, e))
pair-IsLimit (some request) limit m l e h =
    let first : m ≡ pos request = grind (arith, e) in
    let second : l ≡ pos limit = grind (arith, e) in
    ground (arith, h, ap (ltb_ℤ l) first, ap (λ z. ltb_ℤ z (pos request)) second)

cpu-IsLimit :
    {N : Type 0} (numbers : CpuNumbers N) (cpu : Amount N) (a b : Option ℕ)
    → cpu_request numbers cpu ≡ ok (signed a, signed b)
    → IsLimit a b
cpu-IsLimit numbers cpu a none e = tt
cpu-IsLimit numbers not_given a (some limit) e = absurd (grind (arith, e))
cpu-IsLimit numbers (requested c) a (some limit) e = elim (Bool-cases (numbers.is_zero c)) [
  | inl zero_cpu ↦ absurd (grind (arith, e, zero_cpu))
  | inr given ↦ absurd (grind (arith, e, given))
]
cpu-IsLimit numbers (limited c l) a (some limit) e =
    elim (Bool-cases
      (numbers.is_zero c || (numbers.is_zero l || ltb_ℤ (numbers.milli l) (numbers.milli c)))) [
        | inl refused ↦ absurd (ground (arith, e, refused))
        | inr accepted ↦
            pair-IsLimit a limit (numbers.milli c) (numbers.milli l) (ground (arith, e, accepted))
              (ground (arith, accepted))
      ]

memory_limit :
    (memory : Amount ℤ) (a b : ℕ) → memory_request memory ≡ ok (pos a, pos b) → (b ≡ 0) ⊎ (a ≤ b)
memory_limit not_given a b e = inl (grind (arith, e))
memory_limit (requested m) a b e = inl (grind (arith, e))
memory_limit (limited m l) a b e = elim (Bool-cases (ltb_ℤ l m)) [
  | inl refused ↦ absurd (ground (arith, e, refused))
  | inr accepted ↦
      let pair : ◌≡◌ {A = Result ResourceError (ℤ × ℤ)} (ok (m, l)) (ok (pos a, pos b)) =
        ground (arith, e, accepted) in
      let first : m ≡ pos a = grind (arith, pair) in
      let second : l ≡ pos b = grind (arith, pair) in
      inr (ground (arith, accepted, ap (ltb_ℤ l) first, ap (λ z. ltb_ℤ z (pos a)) second))
]

gpu_message-small :
    (gpu_type : Text) (count : ℤ) (config : GpuConfig)
    → gpu_message gpu_type count ≡ ok config
    → config.count < 2 ^ 32
gpu_message-small gpu_type count config e =
    let (n, made, after) = bind-ok (uint32 count) _ config e in
    let (_, small) = uint32-ok count n made in
    let same : n ≡ config.count = grind (arith, after) in subst (λ k. k < 2 ^ 32) same small

counted_gpu-small :
    (texts : GpuTexts) (value : Text) (count : Option ℤ) (config : GpuConfig)
    → counted_gpu texts value count ≡ ok config
    → config.count < 2 ^ 32
counted_gpu-small texts value none config e = absurd (ground (arith, e))
counted_gpu-small texts value (some count) config e = gpu_message-small _ count config e

gpu_from-small :
    (texts : GpuTexts) (value : Text) (halves : Option (Text × Text)) (config : GpuConfig)
    → gpu_from texts value halves ≡ ok config
    → config.count < 2 ^ 32
gpu_from-small texts value none config e = gpu_message-small _ (pos 1) config e
gpu_from-small texts value (some (gpu_type, count_str)) config e =
    counted_gpu-small texts gpu_type (texts.int_of count_str) config e

parse_gpu_config-small :
    (texts : GpuTexts) (gpu : Gpu) (config : GpuConfig)
    → parse_gpu_config texts gpu ≡ ok config
    → config.count < 2 ^ 32
unfolding parse_gpu_config
parse_gpu_config-small texts no_gpu config e =
    let none_asked : 0 ≡ config.count = grind (arith, e) in omega (arith, none_asked)
parse_gpu_config-small texts (gpu_config gpu_type count) config e =
    gpu_message-small gpu_type count config e
parse_gpu_config-small texts (gpu_text value) config e =
    gpu_from-small texts value (split_colon value) config e

-- If a configuration is accepted, the limit of CPUs, if there is one, comes with a request, which it is not below; the limit
-- of memory is not below the request for memory, of which 0 is none, unless the limit is 0, which is no limit; and each
-- amount, the number of GPUs among them, fits a field of 32 bits.
pub convert-IsLimit :
    {N : Type 0} (numbers : CpuNumbers N) (texts : GpuTexts) (cpu : Amount N) (memory : Amount ℤ)
    (gpu : Gpu) (ephemeral_disk : Option ℤ) (rdma : Bool) (r : Resources)
    → convert_fn_config_to_resources_config numbers texts cpu memory gpu ephemeral_disk rdma ≡ ok r
    → IsLimit r.milli_cpu r.milli_cpu_max
      × ((r.memory_mb_max ≡ 0) ⊎ (r.memory_mb ≤ r.memory_mb_max))
      × IsUint32 r.milli_cpu
      × IsUint32 r.milli_cpu_max
      × (r.memory_mb < 2 ^ 32)
      × (r.memory_mb_max < 2 ^ 32)
      × IsUint32 r.ephemeral_disk_mb
      × (r.gpu_config.count < 2 ^ 32)
unfolding convert_fn_config_to_resources_config
convert-IsLimit numbers texts cpu memory gpu ephemeral_disk rdma r e =
    let (config, config_is, e1) = bind-ok (parse_gpu_config texts gpu) _ r e in
    let (c, c_is, e2) = bind-ok (cpu_request numbers cpu) _ r e1 in
    let (m, m_is, e3) = bind-ok (memory_request memory) _ r e2 in
    let (a, a_is, e4) = bind-ok (optional_uint32 c.0) _ r e3 in
    let (b, b_is, e5) = bind-ok (optional_uint32 c.1) _ r e4 in
    let (p, p_is, e6) = bind-ok (uint32 m.0) _ r e5 in
    let (q, q_is, e7) = bind-ok (uint32 m.1) _ r e6 in
    let (d, d_is, e8) = bind-ok (optional_uint32 ephemeral_disk) _ r e7 in
    let (a_same, a_small) = optional_uint32-ok c.0 a a_is in
    let (b_same, b_small) = optional_uint32-ok c.1 b b_is in
    let (p_same, p_small) = uint32-ok m.0 p p_is in
    let (q_same, q_small) = uint32-ok m.1 q q_is in
    let (_, d_small) = optional_uint32-ok ephemeral_disk d d_is in
    subst IsAccepted (same_resources _ r e8) (
      cpu-IsLimit numbers cpu a b (c_is ∙ grind (arith, a_same, b_same)),
      memory_limit memory p q (m_is ∙ grind (arith, p_same, q_same)),
      a_small,
      b_small,
      p_small,
      q_small,
      d_small,
      parse_gpu_config-small texts gpu config config_is,
    )
