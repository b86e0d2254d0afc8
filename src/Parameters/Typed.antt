-- ===== src/Parameters/Typed.antt =====
-- What passes `validate_parameter_values` (modal/_serialization.py) is of the declared types, and can be sent.
use Prim.Native.String.{String}
use modal_client.Prelude.{
  not, ◌≡◌, refl, subst, sym, ◌∙◌, ap, Bool, true, false, ◌&&◌, Bool-cases, inl, inr, Option,
  Option-cases, none, some, List, [], ◌∷◌, ◌++◌, append_assoc, All, Result, ok, err, bind-ok,
  if◌then◌else◌, arith,
}
use text.Mathlib.Text.{◌==◌ as str_eq}
use text.Mathlib.TextEquality.{eq_iff}
use modal_client.Prelude.Names.{
  Names, get_name, set_name, has_name, IsNames, set_name-IsNames, has_name-before,
}
use modal_client.Prelude.Int.{ℤ}
use modal_client.Blobs.Segment.{Bytes}
use modal_client.Parameters.Values.{
  Value, int, str, bytes, bool, int_subclass, str_subclass, bytes_subclass, ParameterType,
  string_type, int_type, bytes_type, bool_type, ParameterError, extra_parameter, fits_int64,
  validate_value,
}
use modal_client.Parameters.Sets.{
  ParameterSpec, Messages, ReadsBack, set_default, with_default, defaults_from, apply_defaults,
  declared_type, check_given, check_fields, is_declared, has_extra, validate_parameter_values,
  serialize_proto_params, deserialize_proto_params,
}
use modal_client.Parameters.RoundTrip.{
  is_sendable, IsSendable, deserialize_proto_params-serialize_proto_params,
}

-- The values of a declared type. A bool is an int in Python, and a value of a subclass is one of the type.
pub data HasType : ParameterType → Value → Type 0 where
  an_int : (n : ℤ) → HasType int_type (int n)
  a_bool_as_int : (b : Bool) → HasType int_type (bool b)
  a_str : (s : String) → HasType string_type (str s)
  some_bytes : (b : Bytes) → HasType bytes_type (bytes b)
  a_bool : (b : Bool) → HasType bool_type (bool b)
  an_int_subclass : (n : ℤ) → HasType int_type (int_subclass n)
  a_str_subclass : (s : String) → HasType string_type (str_subclass s)
  some_bytes_subclass : (b : Bytes) → HasType bytes_type (bytes_subclass b)

-- the schema's parameter has a value of its type
abbrev pub IsGiven : Names Value → ParameterSpec → Type 0
IsGiven payload spec =
    (v : Value) × (get_name spec.name payload ≡ some v) × HasType (declared_type spec) v

-- no value of a subclass, and no integer of more than 64 bits
abbrev pub is_exact_small : Value → Bool
is_exact_small (int n) = fits_int64 n
is_exact_small (int_subclass _) = false
is_exact_small (str_subclass _) = false
is_exact_small (bytes_subclass _) = false
is_exact_small _ = true

validate_value-HasType : (t : ParameterType) (v : Value) → validate_value t v ≡ ok tt → HasType t v
unfolding validate_value
validate_value-HasType int_type (int n) h = an_int n
validate_value-HasType int_type (bool b) h = a_bool_as_int b
validate_value-HasType string_type (str s) h = a_str s
validate_value-HasType bytes_type (bytes b) h = some_bytes b
validate_value-HasType bool_type (bool b) h = a_bool b
validate_value-HasType int_type (int_subclass n) h = an_int_subclass n
validate_value-HasType string_type (str_subclass s) h = a_str_subclass s
validate_value-HasType bytes_type (bytes_subclass b) h = some_bytes_subclass b
validate_value-HasType t v h = absurd (ground (arith, h))

HasType-sendable :
    (t : ParameterType) (v : Value) → HasType t v → is_exact_small v ≡ true → is_sendable v ≡ true
HasType-sendable t v (an_int n) h = h
HasType-sendable t v (a_bool_as_int b) h = refl
HasType-sendable t v (a_str s) h = refl
HasType-sendable t v (some_bytes b) h = refl
HasType-sendable t v (a_bool b) h = refl
HasType-sendable t v (an_int_subclass n) h = absurd (ground (arith, h))
HasType-sendable t v (a_str_subclass s) h = absurd (ground (arith, h))
HasType-sendable t v (some_bytes_subclass b) h = absurd (ground (arith, h))

check_given-IsGiven :
    (payload : Names Value) (spec : ParameterSpec)
    → check_given spec (get_name spec.name payload) ≡ ok tt
    → IsGiven payload spec
check_given-IsGiven payload spec h = elim (Option-cases (get_name spec.name payload)) [
  | inl missing ↦ absurd (ground (arith, h, missing))
  | inr (v, found) ↦
      (v, found, validate_value-HasType (declared_type spec) v (ground (arith, h, found)))
]

check_fields-IsGiven :
    (payload : Names Value) (schema : List ParameterSpec)
    → check_fields payload schema ≡ ok tt
    → All (IsGiven payload) schema
unfolding check_fields
check_fields-IsGiven payload [] h = tt
check_fields-IsGiven payload (spec ∷ schema) h =
    let (_, first, rest) =
      bind-ok (check_given spec (get_name spec.name payload)) (λ _. check_fields payload schema) tt
        h in
    (check_given-IsGiven payload spec first, check_fields-IsGiven payload schema rest)

abbrev pub IsDeclared : List ParameterSpec → String × Value → Type 0
IsDeclared schema p = is_declared p.0 schema ≡ true

has_extra-IsDeclared :
    (payload : Names Value) (schema : List ParameterSpec)
    → has_extra payload schema ≡ false
    → All (IsDeclared schema) payload
has_extra-IsDeclared [] schema h = tt
has_extra-IsDeclared ((name, v) ∷ payload) schema h = elim (Bool-cases (is_declared name schema)) [
  | inl here_ ↦ (here_, has_extra-IsDeclared payload schema (ground (arith, h, here_)))
  | inr extra ↦ absurd (ground (arith, h, extra))
]

-- a declared name has its specification
declared-All :
    (P : ParameterSpec → Type 0) (name : String) (schema : List ParameterSpec)
    → All P schema
    → is_declared name schema ≡ true
    → (spec : ParameterSpec) × P spec × (name ≡ spec.name)
declared-All P name [] all h = absurd (ground (arith, h))
declared-All P name (spec ∷ schema) (first, all) h = elim (Bool-cases (str_eq name spec.name)) [
  | inl same ↦ (spec, first, (eq_iff name spec.name).0 same)
  | inr different ↦ declared-All P name schema all (ground (arith, h, different))
]

get_name-append :
    (k : String) (d e : Names Value) → has_name k d ≡ false → get_name k (d ++ e) ≡ get_name k e
get_name-append k [] e h = refl
get_name-append k ((j, v) ∷ d) e h = ground (arith, get_name-append k d e, h)

get_name_head : (k : String) (v : Value) (r : Names Value) → get_name k ((k, v) ∷ r) ≡ some v
get_name_head k v r = let same : str_eq k k ≡ true = (eq_iff k k).1 refl in rw same refl

some-injective : {A : Type 0} (a b : A) → some a ≡ some b → a ≡ b
some-injective a b e = ground (arith, e)

ok-injective : {E A : Type 0} (a b : A) → ◌≡◌ {A = Result E A} (ok a) (ok b) → a ≡ b
ok-injective a b e = ground (arith, e)

no_extra :
    (b : Bool)
    → ◌≡◌ {A = Result {0, 0} ParameterError Unit} (if b then err extra_parameter else ok tt) (ok tt)
    → b ≡ false
no_extra b e = ground (arith, e)

-- what every name of the rest of a dict gives
found-All : (d r : Names Value) → IsNames (d ++ r) → All (λ p. get_name p.0 (d ++ r) ≡ some p.1) r
found-All d [] names = tt
found-All d ((k, v) ∷ r) names =
    let found : get_name k (d ++ (k, v) ∷ r) ≡ some v =
      get_name-append k d ((k, v) ∷ r) (has_name-before k v d r names) ∙ get_name_head k v r in
    let rest =
      found-All (d ++ (k, v) ∷ []) r (subst IsNames (sym (append_assoc d ((k, v) ∷ []) r)) names) in
    (
      found,
      subst (λ whole. All (λ p. get_name p.0 whole ≡ some p.1) r) (append_assoc d ((k, v) ∷ []) r)
          rest,
    )

-- each value of the payload is of its declared type, so it can be sent
payload-IsSendable :
    (payload : Names Value) (schema : List ParameterSpec)
    → All (IsGiven payload) schema
    → (entries : Names Value) → All (IsDeclared schema) entries
    → All (λ p. get_name p.0 payload ≡ some p.1) entries
    → All (λ p. is_exact_small p.1 ≡ true) entries
    → IsSendable entries
payload-IsSendable payload schema given [] declared found small = tt
payload-IsSendable payload schema given ((name, v) ∷ entries) (known, declared) (has, found)
      (fits, small) =
    let (spec, (w, got, typed), same) = declared-All (IsGiven payload) name schema given known in
    let same_value : w ≡ v =
      some-injective w v (sym got ∙ ap (λ n. get_name n payload) (sym same) ∙ has) in
    (
      HasType-sendable (declared_type spec) v
          (subst (HasType (declared_type spec)) same_value typed) fits,
      payload-IsSendable payload schema given entries declared found small,
    )

set_default-IsNames :
    (name : String) (o : Option Value) (result result' : Names Value)
    → IsNames result
    → set_default name o result ≡ ok result'
    → IsNames result'
set_default-IsNames name none result result' names h = absurd (ground (arith, h))
set_default-IsNames name (some v) result result' names h =
    subst IsNames (ok-injective (set_name name v result) result' h)
      (set_name-IsNames name v result names)

with_default-IsNames :
    (given : Names Value) (spec : ParameterSpec) (result result' : Names Value)
    → IsNames result
    → with_default given spec result ≡ ok result'
    → IsNames result'
with_default-IsNames given spec result result' names h =
    elim (Bool-cases (spec.has_default && not (has_name spec.name given))) [
      | inl adds ↦
          set_default-IsNames spec.name spec.default_value result result' names (rw adds at h)
      | inr keeps ↦ subst IsNames (ok-injective result result' (rw keeps at h)) names
    ]

defaults_from-IsNames :
    (given : Names Value) (schema : List ParameterSpec) (result payload : Names Value)
    → IsNames result
    → defaults_from given schema result ≡ ok payload
    → IsNames payload
unfolding defaults_from
defaults_from-IsNames given [] result payload names h =
    subst IsNames (ok-injective result payload h) names
defaults_from-IsNames given (spec ∷ schema) result payload names h =
    let (result', now, rest) =
      bind-ok (with_default given spec result) (λ r. defaults_from given schema r) payload h in
    defaults_from-IsNames given schema result' payload
      (with_default-IsNames given spec result result' names now) rest

-- If the defaults apply and the payload passes the check, which takes values of subclasses too, and there are none of these in
-- it and no integer of more than 64 bits, then it is serialized and read back as it was; every parameter of the schema has a
-- value of its declared type in it, and every name of it is declared.
pub validated-HasType :
    {B : Type 0} (m : Messages B) (python_params payload : Names Value)
    (schema : List ParameterSpec)
    → ReadsBack m
    → IsNames python_params
    → apply_defaults python_params schema ≡ ok payload
    → validate_parameter_values payload schema ≡ ok tt
    → All (λ p. is_exact_small p.1 ≡ true) payload
    → (serialized : B) × (serialize_proto_params m payload ≡ ok serialized)
      × (deserialize_proto_params m serialized ≡ ok payload)
      × All (IsGiven payload) schema
      × All (IsDeclared schema) payload
unfolding apply_defaults validate_parameter_values
validated-HasType m given payload schema reads names defaults valid small =
    let (_, fields, extra) = bind-ok (check_fields payload schema) _ tt valid in
    let payload_names : IsNames payload =
      defaults_from-IsNames given schema given payload names defaults in
    let all_given : All (IsGiven payload) schema = check_fields-IsGiven payload schema fields in
    let all_declared : All (IsDeclared schema) payload =
      has_extra-IsDeclared payload schema (no_extra (has_extra payload schema) extra) in
    let (serialized, written, read) =
      deserialize_proto_params-serialize_proto_params m payload reads payload_names (
        payload-IsSendable payload schema all_given payload all_declared
          (found-All [] payload payload_names) small) in
    (serialized, written, read, all_given, all_declared)
