-- ===== src/Parameters/Sets.antt =====
-- Sets of parameters of modal/_serialization.py. The bytes of a message are a parameter.
use Prim.Native.String.{String}
use modal_client.Prelude.{
  ◌≡◌, Bool, true, false, not, ◌&&◌, Option, none, some, List, [], ◌∷◌, Result, ok, err, ◌>>=◌,
  if◌then◌else◌,
}
use text.Mathlib.Text.{◌==◌ as str_eq}
use modal_client.Prelude.Names.{Names, get_name, set_name, has_name}
use modal_client.Parameters.Values.{
  Value, ParameterType, unspecified, ParameterValue, ParameterError, missing_parameter,
  extra_parameter, no_default, bad_message, encode, decode, validate_value,
}

-- api_pb2.ClassParameterSpec: `type` is the older field, and `full_type` may not be set
pub record ParameterSpec : Type 0 where
  pub name : String
  pub type_enum : ParameterType
  pub has_default : Bool
  pub default_value : Option Value
  pub full_type : Option ParameterType

-- `SerializeToString` and `FromString` of a ClassParameterSet; reading may fail
pub record Messages (B : Type 0) : Type 0 where
  pub to_bytes : List ParameterValue → B
  pub from_bytes : B → Option (List ParameterValue)

-- what protobuf documents: a message that was written reads back
abbrev pub ReadsBack : {B : Type 0} → Messages B → Type 0
ReadsBack m = (ps : List ParameterValue) → m.from_bytes (m.to_bytes ps) ≡ some ps

-- `apply_defaults`; the loop tests the parameters that were given, not the result so far
abbrev pub set_default : String → Option Value → Names Value → Result ParameterError (Names Value)
set_default name none result = err no_default
set_default name (some v) result = ok (set_name name v result)

abbrev pub with_default :
    Names Value → ParameterSpec → Names Value → Result ParameterError (Names Value)
with_default python_params spec result =
    if spec.has_default && not (has_name spec.name python_params)
    then set_default spec.name spec.default_value result
    else ok result

unfoldable pub defaults_from :
    Names Value → List ParameterSpec → Names Value → Result ParameterError (Names Value)
defaults_from python_params [] result = ok result
defaults_from python_params (spec ∷ schema) result =
    with_default python_params spec result >>= λ result'. defaults_from python_params schema result'

unfoldable pub apply_defaults :
    Names Value → List ParameterSpec → Result ParameterError (Names Value)
unfolding defaults_from
apply_defaults python_params schema = defaults_from python_params schema python_params

-- `encode_parameter_value`
abbrev pub encode_parameter_value : String → Value → Result ParameterError ParameterValue
encode_parameter_value name v = encode v >>= λ p. ok (record p { name = name })

unfoldable pub encode_all : Names Value → Result ParameterError (List ParameterValue)
unfolding encode
encode_all [] = ok []
encode_all ((name, v) ∷ params) =
    let rest = encode_all params in
    encode_parameter_value name v >>= λ p. rest >>= λ ps. ok (p ∷ ps)

unfoldable pub decode_all : List ParameterValue → Names Value → Result ParameterError (Names Value)
decode_all [] python_params = ok python_params
decode_all (p ∷ ps) python_params =
    decode p >>= λ v. decode_all ps (set_name p.name v python_params)

-- the type that a value is checked against
abbrev pub chosen_type : Option ParameterType → ParameterType → ParameterType
chosen_type none t = t
chosen_type (some unspecified) t = t
chosen_type (some full) t = full

abbrev pub declared_type : ParameterSpec → ParameterType
declared_type spec = chosen_type spec.full_type spec.type_enum

abbrev pub check_given : ParameterSpec → Option Value → Result {0, 0} ParameterError Unit
check_given spec none = err missing_parameter
check_given spec (some v) = validate_value (declared_type spec) v

unfoldable pub check_fields : Names Value → List ParameterSpec → Result {0, 0} ParameterError Unit
unfolding validate_value
check_fields payload [] = ok tt
check_fields payload (spec ∷ schema) =
    let rest = check_fields payload schema in
    check_given spec (get_name spec.name payload) >>= λ _. rest

abbrev pub is_declared : String → List ParameterSpec → Bool
is_declared name [] = false
is_declared name (spec ∷ schema) = elim (str_eq name spec.name) [
  | true ↦ true
  | false ↦ is_declared name schema
]

abbrev pub has_extra : Names Value → List ParameterSpec → Bool
has_extra [] schema = false
has_extra ((name, _) ∷ payload) schema =
    if is_declared name schema then has_extra payload schema else true

unfoldable pub validate_parameter_values :
    Names Value → List ParameterSpec → Result {0, 0} ParameterError Unit
unfolding check_fields
validate_parameter_values payload schema = check_fields payload schema >>= λ _.
    if has_extra payload schema then err extra_parameter else ok tt

module _ {B : Type 0} (m : Messages B) where
  unfoldable pub serialize_proto_params : Names Value → Result ParameterError B
  unfolding encode_all
  serialize_proto_params python_params = encode_all python_params >>= λ ps. ok (m.to_bytes ps)

  unfoldable pub deserialize_proto_params : B → Result ParameterError (Names Value)
  unfolding decode_all
  deserialize_proto_params serialized_params = elim (m.from_bytes serialized_params) [
    | none ↦ err bad_message
    | some ps ↦ decode_all ps []
  ]
