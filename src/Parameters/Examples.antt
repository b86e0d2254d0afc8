-- ===== src/Parameters/Examples.antt =====
-- Tests and concrete runs of the parameters of a class (modal/_type_manager.py and modal/_serialization.py). A message
-- stands for its own bytes.
use modal_client.Prelude.{
  inr, Option, some, none, Result, ok, err, ◌^◌, ◌≡◌, refl, true, false, List, [], ◌∷◌, All,
}
use modal_client.Prelude.Int.{pos}
use modal_client.Prelude.Names.{Names}
use modal_client.Parameters.Values.{
  Value, int, str, bool, ParameterValue, unspecified, string_type, int_type, out_of_range,
  no_encoder, string_value, int_value, int_subclass, missing_parameter, encode, validate_value,
}
use modal_client.Parameters.Sets.{
  ParameterSpec, Messages, apply_defaults, validate_parameter_values, serialize_proto_params,
  deserialize_proto_params,
}
use modal_client.Parameters.Formats.{
  pickle, PickleError, deserialization_error, Params, deserialize_params,
}
use modal_client.Parameters.Compatible.{deserialize_params-any_format}
use modal_client.Parameters.Typed.{IsGiven, IsDeclared, validated-HasType}

abbrev plain : Messages (List ParameterValue)
plain = record { to_bytes = λ ps. ps; from_bytes = λ ps. some ps }

abbrev size_spec : ParameterSpec
size_spec = record {
  name = "size";
  type_enum = int_type;
  has_default = true;
  default_value = some (int (pos 3));
  full_type = some unspecified;
}

abbrev name_spec : ParameterSpec
name_spec = record {
  name = "name";
  type_enum = unspecified;
  has_default = false;
  default_value = none;
  full_type = some string_type;
}

abbrev schema : List ParameterSpec
schema = size_spec ∷ name_spec ∷ []

abbrev given : Names Value
given = ("name", str "a") ∷ []

abbrev payload : Names Value
payload = ("name", str "a") ∷ ("size", int (pos 3)) ∷ []

-- bytes that are a message, or else a pickle of one positional argument
abbrev Payload : Type 0
Payload = Option (List ParameterValue)

abbrev messages : Messages Payload
messages = record { to_bytes = λ ps. some ps; from_bytes = λ b. b }

abbrev unpickle : Payload → Result PickleError Params
unpickle none = ok (int (pos 1) ∷ [], [])
unpickle (some _) = err deserialization_error

abbrev sent : Payload
sent = some (
    record { name = "name"; type_enum = string_type; value = string_value "a" }
    ∷ record { name = "size"; type_enum = int_type; value = int_value (pos 3) }
    ∷ [])

sent_payload : serialize_proto_params messages payload ≡ ok sent
unfolding serialize_proto_params modal_client.Parameters.Sets.encode_all encode
sent_payload = refl

deserialize_params-any_format_example :
    (deserialize_params messages unpickle sent pickle ≡ ok ([], payload))
    × (deserialize_params messages unpickle none pickle ≡ ok (int (pos 1) ∷ [], []))
deserialize_params-any_format_example =
    deserialize_params-any_format messages unpickle payload pickle sent none (int (pos 1) ∷ [], [])
      (λ ps. refl) (refl, (refl, tt)) (refl, (refl, tt)) tt sent_payload (inr refl) refl (inr refl)

validated-HasType_example :
    (serialized : List ParameterValue) × (serialize_proto_params plain payload ≡ ok serialized)
    × (deserialize_proto_params plain serialized ≡ ok payload)
    × All (IsGiven payload) schema
    × All (IsDeclared schema) payload
unfolding apply_defaults validate_parameter_values
validated-HasType_example =
    validated-HasType plain given payload schema (λ ps. refl) (refl, tt) refl refl
      (refl, (refl, tt))

too_large : encode (int (pos (2 ^ 63))) ≡ err out_of_range
unfolding encode
too_large = refl

-- a value of a subclass of int passes the check, and is then refused
subclass_for_int :
    (validate_value int_type (int_subclass (pos 1)) ≡ ok tt)
    × (encode (int_subclass (pos 1)) ≡ err no_encoder)
unfolding validate_value encode
subclass_for_int = (refl, refl)

-- a bool passes the check of an int
bool_for_int : validate_value int_type (bool true) ≡ ok tt
unfolding validate_value
bool_for_int = refl

missing : validate_parameter_values given schema ≡ err missing_parameter
unfolding validate_parameter_values
missing = refl
